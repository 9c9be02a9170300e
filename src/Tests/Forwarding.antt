-- ===== src/Tests/Forwarding.antt =====
-- A request that is passed on to an upstream, on concrete input.
use mathlib.Core.Option.{map, some_inj}
use buffered_llm_proxy.Base.{
  [], bytes_eq, codes, equal, false, none, refl, some, ◌∷◌, ◌≡◌, Bytes, List, Option, subst, sym,
}
use buffered_llm_proxy.Base.Int.{pos}
use buffered_llm_proxy.Base.Map.{lookup, insert}
use buffered_llm_proxy.Compress.Writer.{Writer, wrap_response_writer, close}
use buffered_llm_proxy.Compress.Writer.Delivery.{decode_of, Delivers}
use buffered_llm_proxy.Compress.Writer.Calls.{run}
use buffered_llm_proxy.Http.Header.{Header, get}
use buffered_llm_proxy.Http.Response.{new_response}
use buffered_llm_proxy.Proxy.Bodies.{JsonObjects}
use buffered_llm_proxy.Proxy.Bodies.Renaming.{ObjectsRoundTrip, Asks, Replies}
use buffered_llm_proxy.Proxy.Transparent.Replies.{Sends}
use buffered_llm_proxy.Proxy.Headers.HopByHop.{connection}
use buffered_llm_proxy.Proxy.Monitor.Wellformed.{IsHub}
use buffered_llm_proxy.Proxy.Transparent.{
  TargetUrl, Request, Network, reply, ServerState, Answer, LastRequestRecord, get_last_req,
  out_request,
}
use buffered_llm_proxy.Proxy.Completions.{
  Texts, Clock, read, answered, upstream_body, handle_streaming_endpoint,
}
use buffered_llm_proxy.Proxy.Completions.Rewriting.{handle_streaming_endpoint-Delivers}
use buffered_llm_proxy.Proxy.Upstreams.{
  UpstreamTarget, ProxyServer, target, new_proxy_server, resolve_upstream,
}
use buffered_llm_proxy.Tests.Compression.{buffering, buffering-Decodes, gzip_request, one}
use buffered_llm_proxy.Tests.Hub.{watched, watched-IsHub}

-- Every body is an object whose one member is the model.
abbrev json : JsonObjects
json = record {
  decode_object = λ body. some ((codes "model", body) ∷ []);
  encode_object = λ members. lookup (codes "model") members;
  encode_string = λ s. some s;
}

abbrev upstream_header : Header
upstream_header =
    (codes "Content-Type", codes "application/json" ∷ [])
    ∷ (codes "Connection", codes "close" ∷ [])
    ∷ []

abbrev net : Network
net = record {
  url_string = λ u. u.path;
  request_error = λ method url. none;
  send = λ out. reply 200 upstream_header (codes "b");
}

abbrev target_a : UpstreamTarget TargetUrl
target_a = record {
  name = codes "u";
  url = record { origin = []; path = codes "/"; raw_query = [] };
  api_key = [];
}

abbrev request : Request
request = record {
  method = codes "POST";
  path = codes "/v1/chat/completions";
  raw_query = [];
  header = gzip_request;
  body = [];
}

abbrev clock : Clock
clock = record {
  session_id = codes "s";
  request_ms = pos 0;
  started_ms = pos 0;
  duration_ms = pos 1;
  response_ms = pos 1;
  end_ms = pos 1;
}

-- Every body asks for the model `u/m` without a stream.
abbrev texts : Texts
texts = record { payload = λ body. (false, codes "u/m"); encode = λ v. []; quote = λ s. s }

abbrev server : ProxyServer TargetUrl
server = new_proxy_server (target_a ∷ []) none

resolved : resolve_upstream server (codes "u/m") ≡ target target_a (codes "m")
unfolding resolve_upstream new_proxy_server equal lookup insert
resolved = refl

abbrev state : ServerState
state = record { hub = watched; last_reqs = [] }

map-same : (v : Option Bytes) → map (λ raw. raw) v ≡ v
map-same none = refl
map-same (some raw) = refl

json-ObjectsRoundTrip : ObjectsRoundTrip json (λ raw. raw)
unfolding insert lookup equal
json-ObjectsRoundTrip = record {
  string_text = λ s. (s, refl);
  object_text = λ body s text members d e.
      subst
        (λ ms.
          let new = insert (codes "model") text ms in
          (out : Bytes) × (decoded : List (Bytes × Bytes)) × (json.encode_object new ≡ some out)
          × (json.decode_object out ≡ some decoded)
          × ((key : Bytes) → lookup key decoded ≡ map (λ raw. raw) (lookup key new)))
        (some_inj.0 d) (text, (codes "model", text) ∷ [], refl, refl, λ key. sym (map-same _));
}

handle_streaming_endpoint-Delivers_example :
    let sent = upstream_body json (codes "u/m") (codes "m") (codes "{}") in
    (a : Answer) × (st : ServerState) × (rec : LastRequestRecord) × (handle_streaming_endpoint json
        texts net server none clock request [] state
        (read (codes "{}"))
      ≡ some (answered a st))
    × IsHub st.hub
    × (get_last_req (codes "u/m") st.last_reqs ≡ some rec)
    × (rec.status_code ≡ 200)
    × Replies json
        (λ raw. raw)
        (codes "u/m")
        (get (codes "Content-Type") upstream_header)
        (codes "b")
        rec.response
    × (let w0 : Writer buffering buffering =
          wrap_response_writer one (record new_response { header = a.header }) gzip_request none in
        (w : Writer buffering buffering) × (run a.calls w0 ≡ some w)
        × Sends 200 connection (close w)
        × Delivers
            (decode_of (λ bytes. bytes) (λ bytes. bytes))
            w0.encoding
            a.header
            200
            rec.response
            none
            (close w))
    × Asks json
        (λ raw. raw)
        (codes "u/m")
        (codes "m")
        (codes "{}")
        (out_request net target_a (some sent) request).body
unfolding lookup
handle_streaming_endpoint-Delivers_example =
    handle_streaming_endpoint-Delivers (λ bytes. bytes) (λ bytes. bytes) buffering-Decodes
      buffering-Decodes one json (λ raw. raw) texts net server none clock request [] state target_a
      (codes "u/m") (codes "m") (codes "{}") 200 upstream_header (codes "b") connection none
      json-ObjectsRoundTrip watched-IsHub refl resolved refl refl refl refl refl
