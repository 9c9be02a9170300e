-- ===== src/Semantic/Segment/Growth.antt =====
-- How merging changes the size of a segment, its kind, and what it can merge with.
use buffered_llm_proxy.Base.{◌+◌, ◌≤◌, ◌≡◌, refl, true, some, arith, length-append}
use buffered_llm_proxy.Semantic.Chat.{reasoning_merge, content_merge, tool_call_bytes_len}
use buffered_llm_proxy.Semantic.Chat.Calls.{merge_entries-bounds, merge_entries-IsWellFormed}
use buffered_llm_proxy.Semantic.Responses.{
  response_text_merge, response_reasoning_merge, response_tool_merge,
}
use buffered_llm_proxy.Semantic.Segment.{Segment, bytes_len, event_type, can_merge, merge}
use buffered_llm_proxy.Semantic.Segment.Merging.{
  IsWellFormed, Merging, merge-Merging, reasonings, contents, tool_calls, roles, response_texts,
  response_reasonings, response_tools,
}

-- A merged segment is at least as large as the first, and no larger than both.
pub Merging-bytes_len :
    {s n t : Segment}
    → Merging s n t
    → (bytes_len s ≤ bytes_len t) × (bytes_len t ≤ bytes_len s + bytes_len n)
unfolding bytes_len reasoning_merge content_merge tool_call_bytes_len response_text_merge
    response_reasoning_merge response_tool_merge
Merging-bytes_len (reasonings s n h) = ground (arith, length-append s.text n.text)
Merging-bytes_len (contents s n h) = ground (arith, length-append s.text n.text)
Merging-bytes_len (tool_calls s n h w) =
    let b = merge_entries-bounds n.calls s in (omega arith, omega arith)
Merging-bytes_len (roles s n h) = (omega arith, omega arith)
Merging-bytes_len (response_texts s n h) = ground (arith, length-append s.delta n.delta)
Merging-bytes_len (response_reasonings s n h) = ground (arith, length-append s.delta n.delta)
Merging-bytes_len (response_tools s n h) = ground (arith, length-append s.delta n.delta)

-- A merged segment is well formed if the receiver was.
pub Merging-IsWellFormed : {s n t : Segment} → Merging s n t → IsWellFormed s → IsWellFormed t
Merging-IsWellFormed (reasonings s n h) v = tt
Merging-IsWellFormed (contents s n h) v = tt
Merging-IsWellFormed (tool_calls s n h w) v = merge_entries-IsWellFormed n.calls s v
Merging-IsWellFormed (roles s n h) v = tt
Merging-IsWellFormed (response_texts s n h) v = tt
Merging-IsWellFormed (response_reasonings s n h) v = tt
Merging-IsWellFormed (response_tools s n h) v = tt

pub Merging-event_type :
    {s n t : Segment}
    → Merging s n t
    → (event_type s ≡ event_type n) × (event_type t ≡ event_type s)
unfolding event_type
Merging-event_type (reasonings s n h) = (refl, refl)
Merging-event_type (contents s n h) = (refl, refl)
Merging-event_type (tool_calls s n h w) = (refl, refl)
Merging-event_type (roles s n h) = (refl, refl)
Merging-event_type (response_texts s n h) = (refl, refl)
Merging-event_type (response_reasonings s n h) = (refl, refl)
Merging-event_type (response_tools s n h) = (refl, refl)

-- Two segments that can merge give one segment that is at least as large as the first, no larger
-- than both, of the same kind, and well formed if both were.
pub merge-bytes_len :
    (s n : Segment)
    → IsWellFormed s
    → IsWellFormed n
    → can_merge s n ≡ true
    → (t : Segment) × (merge s n ≡ some (t, true))
      × (bytes_len s ≤ bytes_len t)
      × (bytes_len t ≤ bytes_len s + bytes_len n)
      × (event_type t ≡ event_type s)
      × IsWellFormed t
merge-bytes_len s n v w h =
    let (t, e, m) = merge-Merging s n w h in
    let b = Merging-bytes_len m in
    (t, e, b.0, b.1, (Merging-event_type m).1, Merging-IsWellFormed m v)
