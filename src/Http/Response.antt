-- ===== src/Http/Response.antt =====
-- The `http.ResponseWriter` that net/http hands to a handler, with what the client was sent, for a
-- method other than HEAD. A length that a header declares is that of the body, and no write fails
-- but for a status that has no body.
use buffered_llm_proxy.Base.{
  ℕ, ◌+◌, ◌≡◌, refl, sym, Bool, true, false, not, ◌&&◌, ◌||◌, List, [], ◌∷◌, ◌++◌, Bytes, is_empty,
  leb, ◌==◌, arith, if◌then◌else◌,
}
use buffered_llm_proxy.Http.Header.{Header}

-- `header` is the map that `Header()` returns; `informed` the informational responses, and `sent` the
-- final one if it was begun, each with the header at that time.
pub record Response : Type 0 where
  pub header : Header
  pub informed : List (ℕ × Header)
  pub sent : List (ℕ × Header)
  pub body : Bytes
  pub flushes : ℕ

abbrev pub new_response : Response
new_response = record { header = []; informed = []; sent = []; body = []; flushes = 0 }

-- Any other code makes `WriteHeader` panic.
abbrev pub is_code : ℕ → Bool
is_code status = leb 100 status && leb status 999

abbrev pub is_informational : ℕ → Bool
is_informational status = leb 100 status && leb status 199 && not (status == 101)

-- The code of a response that ends the request.
abbrev pub is_final : ℕ → Bool
is_final status = is_code status && not (is_informational status)

abbrev pub has_body : ℕ → Bool
has_body status = not (leb 100 status && leb status 199 || status == 204 || status == 304)

abbrev pub takes_body : List (ℕ × Header) → Bool
takes_body [] = false
takes_body ((status, _) ∷ _) = has_body status

-- `WriteHeader` with a code that `is_code`; the first final status counts.
unfoldable pub send_header : ℕ → Response → Response
send_header status r =
    if not (is_empty r.sent)
    then r
    else if is_informational status
    then record r { informed = r.informed ++ ((status, r.header) ∷ []) }
    else record r { sent = (status, r.header) ∷ [] }

-- `Write`: the status is 200 if none was sent, and a status without a body refuses the bytes.
unfoldable pub send_bytes : Bytes → Response → Response
unfolding send_header
send_bytes p r =
    let r' = send_header 200 r in
    if takes_body r'.sent then record r' { body = r'.body ++ p } else r'

unfoldable pub send_flush : Response → Response
unfolding send_header
send_flush r = let r' = send_header 200 r in record r' { flushes = r'.flushes + 1 }

send_header-sent : (status : ℕ) (r : Response) → is_empty r.sent ≡ false → send_header status r ≡ r
unfolding send_header
send_header-sent status r s = rw s refl

-- Once the status is sent, a write changes the body alone, if it may have one.
pub send_bytes-sent :
    (p : Bytes) (r : Response)
    → is_empty r.sent ≡ false
    → ((send_bytes p r).sent ≡ r.sent)
      × ((send_bytes p r).body ≡ (if takes_body r.sent then r.body ++ p else r.body))
unfolding send_bytes
send_bytes-sent p r s = rw (send_header-sent 200 r s) (ground arith)

pub send_flush-sent :
    (r : Response)
    → is_empty r.sent ≡ false
    → ((send_flush r).sent ≡ r.sent) × ((send_flush r).body ≡ r.body)
unfolding send_flush
send_flush-sent r s = rw (send_header-sent 200 r s) (refl, refl)

pub send_header-final :
    (status : ℕ) (r : Response)
    → is_final status ≡ true
    → is_empty r.sent ≡ true
    → (send_header status r).sent ≡ (status, r.header) ∷ []
unfolding send_header
send_header-final status r f s = ground (arith, f, s)

pub takes_body-begun : (s : List (ℕ × Header)) → takes_body s ≡ true → is_empty s ≡ false
takes_body-begun [] t = sym t
takes_body-begun (_ ∷ _) t = refl

pub send_header-body : (status : ℕ) (r : Response) → (send_header status r).body ≡ r.body
unfolding send_header
send_header-body status r = ground arith
