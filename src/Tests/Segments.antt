-- ===== src/Tests/Segments.antt =====
-- Merging of segments, on concrete segments.
use buffered_llm_proxy.Base.{
  ◌≡◌, ◌≤◌, ◌+◌, ◌⊎◌, refl, true, false, ◌++◌, some, codes, equal, has_prefix,
}
use buffered_llm_proxy.Base.Int.{pos, int_equal}
use buffered_llm_proxy.Semantic.Chat.{content_merge, content_can_merge, merge_function_name}
use buffered_llm_proxy.Semantic.Chat.Calls
use buffered_llm_proxy.Semantic.ChatParser.{tool_segment}
use buffered_llm_proxy.Semantic.ChatParser.Parsed.{tool_segment-IsWellFormed}
use buffered_llm_proxy.Semantic.Segment.{
  Segment, can_merge, merge, merge_into, bytes_len, event_type,
}
use buffered_llm_proxy.Semantic.Segment.Channels.{Channel, text_on, merge-text_on}
use buffered_llm_proxy.Semantic.Segment.Growth.{merge-bytes_len}
use buffered_llm_proxy.Semantic.Segment.Merging.{IsWellFormed, contents, merge-can_merge}
use buffered_llm_proxy.Semantic.Segment.Separation.{Merging-can_merge}
use buffered_llm_proxy.Tests.Data.{
  meta_a, content_a, content_b, content_ab, reasoning_a, two_deltas,
}

merge_example : merge content_a content_b ≡ some (content_ab, true)
unfolding merge merge_into can_merge content_can_merge content_merge int_equal
merge_example = refl

function_name_example : merge_function_name (codes "get_") (codes "get_time") ≡ codes "get_time"
unfolding merge_function_name equal has_prefix
function_name_example = refl

merge-can_merge_example :
    (t : Segment) × (merge content_a reasoning_a ≡ some (t, can_merge content_a reasoning_a))
    × ((can_merge content_a reasoning_a ≡ true) ⊎ (t ≡ content_a))
merge-can_merge_example = merge-can_merge content_a reasoning_a tt

merge-bytes_len_example :
    (t : Segment) × (merge content_a content_b ≡ some (t, true))
    × (bytes_len content_a ≤ bytes_len t)
    × (bytes_len t ≤ bytes_len content_a + bytes_len content_b)
    × (event_type t ≡ event_type content_a)
    × IsWellFormed t
unfolding can_merge content_can_merge int_equal
merge-bytes_len_example = merge-bytes_len content_a content_b tt tt refl

merge-text_on_example :
    (t : Segment) × (merge content_a content_b ≡ some (t, true))
    × ((c : Channel) → text_on c t ≡ text_on c content_a ++ text_on c content_b)
unfolding can_merge content_can_merge int_equal
merge-text_on_example = merge-text_on content_a content_b tt refl

Merging-can_merge_example : can_merge reasoning_a content_ab ≡ false
unfolding content_merge can_merge content_can_merge int_equal
Merging-can_merge_example =
    Merging-can_merge reasoning_a
      (contents (record { choice_index = pos 0; text = codes "Hel"; metadata = meta_a })
        (record { choice_index = pos 0; text = codes "lo"; metadata = meta_a }) refl)
      refl

tool_segment-IsWellFormed_example : Calls.IsWellFormed (tool_segment (pos 0) meta_a two_deltas)
unfolding int_equal
tool_segment-IsWellFormed_example =
    tool_segment-IsWellFormed (pos 0) meta_a two_deltas ((refl, tt), (tt, tt))
