-- ===== src/Semantic/ChatParser/Segments.antt =====
-- The segments that `parseChatCompletionsEvent` gives: what holds of the tool calls it decodes
-- holds of every tool call in its result, and no event is lost.
use buffered_llm_proxy.Base.{
  ◌≡◌, List, [], ◌∷◌, ◌++◌, Option, none, some, Bytes, codes, is_empty, equal, bytes_eq, Bool-cases,
  Option-cases, inl, inr,
}
use buffered_llm_proxy.Base.Int.{ℤ}
use buffered_llm_proxy.Base.Map.{lookup}
use buffered_llm_proxy.Base.Trim.{trim_space}
use buffered_llm_proxy.Sse.Reader.{Event}
use buffered_llm_proxy.Semantic.Types.{CommonMetadata, ToolCallDelta, ChoiceChunk}
use buffered_llm_proxy.Semantic.Json.{Json}
use buffered_llm_proxy.Semantic.Chat.{ToolCallSegment}
use buffered_llm_proxy.Semantic.Segment.{Segment, tool_call}
use buffered_llm_proxy.Semantic.Metadata.{
  Parser, RawMap, extract_metadata, decode_extras, decoded, present, is_present,
}
use buffered_llm_proxy.Semantic.ChatParser.{
  Roles, is_new_role, read_role, parse_role, parse_reasoning, parse_content, parse_tools,
  unknown_delta, parse_delta, parse_finish, delta_object, parse_choice, parse_choices,
  parse_choices_member, parse_usage, or_raw, parse_chunk, parse_chat_root, parse_chat_event,
  filled_text, tool_segment, reasoning_keys, known_delta_keys,
}

-- A property of tool calls, of a segment and of a list of segments.
abbrev pub OnTool : (ToolCallSegment → Type 0) → Segment → Type 0
OnTool Q (tool_call s) = Q s
OnTool Q _ = Unit {0}

abbrev pub OnTools : (ToolCallSegment → Type 0) → List Segment → Type 0
OnTools Q [] = Unit {0}
OnTools Q (s ∷ ss) = OnTool Q s × OnTools Q ss

pub OnTools-append :
    (Q : ToolCallSegment → Type 0) (a b : List Segment)
    → OnTools Q a
    → OnTools Q b
    → OnTools Q (a ++ b)
OnTools-append Q [] b p q = q
OnTools-append Q (s ∷ a) b p q = (p.0, OnTools-append Q a b p.1 q)

module _ (json : Json) (Q : ToolCallSegment → Type 0)
    (made : (i : ℤ) (meta : CommonMetadata) (r : Bytes) (tcs : List ToolCallDelta)
      → json.decode_tool_calls r ≡ some tcs
      → Q (tool_segment i meta tcs)) where
  read_role-OnTools :
      (meta : CommonMetadata) (i : ℤ) (roles : Roles) (o : Option Bytes)
      → OnTools Q (read_role meta i roles o).1
  unfolding read_role
  read_role-OnTools meta i roles none = tt
  read_role-OnTools meta i roles (some s) = elim (Bool-cases (is_new_role i s roles)) [
    | inl t ↦ rw (t, read_role) (tt, tt)
    | inr f ↦ rw (f, read_role) tt
  ]

  parse_reasoning-OnTools :
      (meta : CommonMetadata) (i : ℤ) (delta : RawMap) (keys : List Bytes)
      → OnTools Q (parse_reasoning json meta i delta keys)
  unfolding parse_reasoning
  parse_reasoning-OnTools meta i delta [] = tt
  parse_reasoning-OnTools meta i delta (k ∷ keys) =
      elim (Option-cases (filled_text (decoded json.decode_string k delta))) [
        | inl e ↦ rw (e, parse_reasoning) (parse_reasoning-OnTools meta i delta keys)
        | inr (s, e) ↦ rw (e, parse_reasoning) (tt, tt)
      ]

  parse_content-OnTools :
      (meta : CommonMetadata) (i : ℤ) (delta : RawMap) → OnTools Q (parse_content json meta i delta)
  unfolding parse_content
  parse_content-OnTools meta i delta =
      elim (Option-cases (decoded json.decode_string_pointer (codes "content") delta)) [
        | inl e ↦ rw (e, parse_content) tt
        | inr (o, e) ↦ elim (Option-cases (filled_text o)) [
          | inl n ↦ rw (e, parse_content, n) tt
          | inr (s, n) ↦ rw (e, parse_content, n) (tt, tt)
        ]
      ]

  parse_tools-OnTools :
      (meta : CommonMetadata) (i : ℤ) (delta : RawMap) → OnTools Q (parse_tools json meta i delta)
  unfolding parse_tools
  parse_tools-OnTools meta i delta = elim (Option-cases (present (codes "tool_calls") delta)) [
    | inl e ↦ rw (e, parse_tools) tt
    | inr (r, e) ↦ elim (Option-cases (json.decode_tool_calls r)) [
      | inl n ↦ rw (e, parse_tools, n) tt
      | inr (tcs, n) ↦ elim (Bool-cases (is_empty tcs)) [
        | inl t ↦ rw (e, parse_tools, n, t) tt
        | inr f ↦ rw (e, parse_tools, n, f) (made i meta r tcs n, tt)
      ]
    ]
  ]

  unknown_delta-OnTools :
      (meta : CommonMetadata) (bytes : Bytes) (delta : RawMap) (ss : List Segment)
      → OnTools Q ss
      → OnTools Q (unknown_delta json meta bytes delta ss)
  unfolding unknown_delta
  unknown_delta-OnTools meta bytes delta [] q =
      elim (Bool-cases (is_empty (decode_extras json known_delta_keys delta []))) [
        | inl t ↦ rw t tt
        | inr f ↦ rw f (tt, tt)
      ]
  unknown_delta-OnTools meta bytes delta (s ∷ ss) q = q

  parse_finish-OnTools :
      (meta : CommonMetadata) (c : ChoiceChunk) → OnTools Q (parse_finish json meta c)
  unfolding parse_finish
  parse_finish-OnTools meta c = elim (Option-cases c.finish_reason) [
    | inl e ↦ rw (e, parse_finish) tt
    | inr (s, e) ↦ elim (Bool-cases (is_present s)) [
      | inl t ↦ rw (e, parse_finish, t) (tt, tt)
      | inr f ↦ rw (e, parse_finish, f) tt
    ]
  ]

  parse_delta-OnTools :
      (meta : CommonMetadata) (i : ℤ) (bytes : Bytes) (delta : RawMap) (roles : Roles)
      → OnTools Q (parse_delta json meta i bytes delta roles).1
  unfolding parse_delta parse_role
  parse_delta-OnTools meta i bytes delta roles =
      let role_segments = (parse_role json meta i delta roles).1 in
      let reasonings = parse_reasoning json meta i delta reasoning_keys in
      let contents = parse_content json meta i delta in
      let tools = parse_tools json meta i delta in
      unknown_delta-OnTools meta bytes delta (role_segments ++ (reasonings ++ (contents ++ tools)))
        (OnTools-append Q role_segments (reasonings ++ (contents ++ tools))
          (read_role-OnTools meta i roles
            (filled_text (decoded json.decode_string (codes "role") delta)))
          (OnTools-append Q reasonings (contents ++ tools)
            (parse_reasoning-OnTools meta i delta reasoning_keys)
            (OnTools-append Q contents tools (parse_content-OnTools meta i delta)
              (parse_tools-OnTools meta i delta))))

  parse_choice-OnTools :
      (meta : CommonMetadata) (c : ChoiceChunk) (roles : Roles)
      → OnTools Q (parse_choice json meta c roles).1
  unfolding parse_choice
  parse_choice-OnTools meta c roles = elim (Option-cases (delta_object json c.delta)) [
    | inl e ↦ rw (e, parse_choice) (parse_finish-OnTools meta c)
    | inr (delta, e) ↦
        rw (e, parse_choice)
          (OnTools-append Q (parse_delta json meta c.index c.delta delta roles).1
            (parse_finish json meta c) (parse_delta-OnTools meta c.index c.delta delta roles)
            (parse_finish-OnTools meta c))
  ]

  parse_choices-OnTools :
      (meta : CommonMetadata) (cs : List ChoiceChunk) (roles : Roles)
      → OnTools Q (parse_choices json meta cs roles).1
  unfolding parse_choices
  parse_choices-OnTools meta [] roles = tt
  parse_choices-OnTools meta (c ∷ cs) roles =
      OnTools-append Q (parse_choice json meta c roles).1
        (parse_choices json meta cs (parse_choice json meta c roles).0).1
        (parse_choice-OnTools meta c roles)
        (parse_choices-OnTools meta cs (parse_choice json meta c roles).0)

  parse_choices_member-OnTools :
      (meta : CommonMetadata) (root : RawMap) (roles : Roles)
      → OnTools Q (parse_choices_member json meta root roles).1
  unfolding parse_choices_member
  parse_choices_member-OnTools meta root roles =
      elim (Option-cases (present (codes "choices") root)) [
        | inl e ↦ rw (e, parse_choices_member) tt
        | inr (r, e) ↦ elim (Option-cases (json.decode_choices r)) [
          | inl n ↦ rw (e, parse_choices_member, n) tt
          | inr (cs, n) ↦ rw (e, parse_choices_member, n) (parse_choices-OnTools meta cs roles)
        ]
      ]

  parse_usage-OnTools :
      (meta : CommonMetadata) (root : RawMap) → OnTools Q (parse_usage json meta root)
  unfolding parse_usage
  parse_usage-OnTools meta root = elim (Option-cases (present (codes "usage") root)) [
    | inl e ↦ rw (e, parse_usage) tt
    | inr (r, e) ↦ elim (Option-cases (json.decode_value r)) [
      | inl n ↦ rw (e, parse_usage, n) tt
      | inr (v, n) ↦ rw (e, parse_usage, n) (tt, tt)
    ]
  ]

  or_raw-OnTools :
      (meta : CommonMetadata) (bytes : Bytes) (ss : List Segment)
      → OnTools Q ss
      → OnTools Q (or_raw json meta bytes ss)
  unfolding or_raw
  or_raw-OnTools meta bytes [] q = (tt, tt)
  or_raw-OnTools meta bytes (s ∷ ss) q = q

  parse_chunk-OnTools :
      (p : Parser) (bytes : Bytes) (root : RawMap) → OnTools Q (parse_chunk json p bytes root).1
  unfolding parse_chunk
  parse_chunk-OnTools p bytes root =
      let q = extract_metadata json p root in
      let choices = (parse_choices_member json q.meta root q.seen_roles).1 in
      or_raw-OnTools q.meta bytes (choices ++ parse_usage json q.meta root) (
        OnTools-append Q choices (parse_usage json q.meta root)
          (parse_choices_member-OnTools q.meta root q.seen_roles) (parse_usage-OnTools q.meta root))

  parse_chat_root-OnTools :
      (p : Parser) (bytes : Bytes) → OnTools Q (parse_chat_root json p bytes).1
  unfolding parse_chat_root
  parse_chat_root-OnTools p bytes = elim (Option-cases (json.decode_object bytes)) [
    | inl e ↦ rw (e, parse_chat_root) (tt, tt)
    | inr (root, e) ↦ elim (Option-cases (lookup (codes "error") root)) [
      | inr (_, n) ↦ rw (e, parse_chat_root, n) (tt, tt)
      | inl n ↦ rw (e, parse_chat_root, n) (parse_chunk-OnTools p bytes root)
    ]
  ]

  pub parse_chat_event-OnTools :
      (p : Parser) (ev : Event) → OnTools Q (parse_chat_event json p ev).1
  unfolding parse_chat_event
  parse_chat_event-OnTools p ev = elim (Bool-cases (is_empty (trim_space ev.payload))) [
    | inl t ↦ rw (t, parse_chat_event) tt
    | inr f ↦ elim (Bool-cases (equal (trim_space ev.payload) (codes "[DONE]"))) [
      | inl t ↦ rw (f, parse_chat_event, t) (tt, tt)
      | inr g ↦ rw (f, parse_chat_event, g) (parse_chat_root-OnTools p (trim_space ev.payload))
    ]
  ]
