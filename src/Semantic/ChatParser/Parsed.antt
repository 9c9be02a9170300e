-- ===== src/Semantic/ChatParser/Parsed.antt =====
-- What `parseChatCompletionsEvent` makes of the tool calls of a delta.
use buffered_llm_proxy.Base.{
  ◌≡◌, ◌≢◌, refl, sym, ap, ◌∙◌, false, List, [], ◌∷◌, ◌++◌, none, bytes_eq, arith, Option-cases,
  inl, inr, map, append-nil, append_assoc,
}
use buffered_llm_proxy.Base.Int.{ℤ, int_equal, int_equal_iff, int_eq}
use buffered_llm_proxy.Base.Map.{lookup, insert, lookup-insert}
use buffered_llm_proxy.Semantic.Types.{CommonMetadata, ToolCallDelta}
use buffered_llm_proxy.Semantic.Chat.{ToolCallAccumulator, Calls}
use buffered_llm_proxy.Semantic.Chat.Calls.{IsWellFormed, keys-insert_new, insert-Distinct}
use buffered_llm_proxy.Semantic.Chat.Entries.{keys, Distinct}
use buffered_llm_proxy.Semantic.Serializer.{call_values}
use buffered_llm_proxy.Semantic.ChatParser.{accumulator, collect_calls, index_of, tool_segment}

-- The indexes of the tool calls of a delta are pairwise different.
abbrev pub IsFresh : ℤ → List ToolCallDelta → Type 0
IsFresh i [] = Unit {0}
IsFresh i (tc ∷ tcs) = (int_equal i tc.index ≡ false) × IsFresh i tcs

abbrev pub AreDistinct : List ToolCallDelta → Type 0
AreDistinct [] = Unit {0}
AreDistinct (tc ∷ tcs) = IsFresh tc.index tcs × AreDistinct tcs

-- None of the indexes has an entry.
abbrev AreNew : List ToolCallDelta → Calls → Type 0
AreNew [] m = Unit {0}
AreNew (tc ∷ tcs) m = (lookup tc.index m ≡ none) × AreNew tcs m

insert-AreNew :
    (i : ℤ) (c : ToolCallAccumulator) (tcs : List ToolCallDelta) (m : Calls)
    → IsFresh i tcs
    → AreNew tcs m
    → AreNew tcs (insert i c m)
insert-AreNew i c [] m f n = n
insert-AreNew i c (tc ∷ tcs) m f n =
    (ground (arith, lookup-insert i tc.index c m, f.0, n.0), insert-AreNew i c tcs m f.1 n.1)

empty-AreNew : (tcs : List ToolCallDelta) → AreNew tcs []
unfolding lookup
empty-AreNew [] = ground arith
empty-AreNew (tc ∷ tcs) = (refl, empty-AreNew tcs)

collect_calls-keys :
    (tcs : List ToolCallDelta) (m : Calls)
    → AreDistinct tcs
    → AreNew tcs m
    → keys (collect_calls tcs m) ≡ keys m ++ map index_of tcs
unfolding collect_calls
collect_calls-keys [] m d n = sym (append-nil (keys m))
collect_calls-keys (tc ∷ tcs) m d n =
    collect_calls-keys tcs (insert tc.index (accumulator tc) m) d.1
      (insert-AreNew tc.index (accumulator tc) tcs m d.0 n.1)
    ∙ ap (λ ks. ks ++ map index_of tcs) (keys-insert_new tc.index (accumulator tc) m n.0)
    ∙ append_assoc (keys m) (tc.index ∷ []) (map index_of tcs)

collect_calls-Distinct :
    (tcs : List ToolCallDelta) (m : Calls) → Distinct m → Distinct (collect_calls tcs m)
unfolding collect_calls
collect_calls-Distinct [] m d = d
collect_calls-Distinct (tc ∷ tcs) m d =
    collect_calls-Distinct tcs (insert tc.index (accumulator tc) m)
      (insert-Distinct tc.index (accumulator tc) m d)

-- A delta whose tool calls have pairwise different indexes gives a well-formed segment: its order
-- lists the indexes of its map, each once.
pub tool_segment-IsWellFormed :
    (i : ℤ) (meta : CommonMetadata) (tcs : List ToolCallDelta)
    → AreDistinct tcs
    → IsWellFormed (tool_segment i meta tcs)
unfolding tool_segment keys
tool_segment-IsWellFormed i meta tcs d = record {
  ordered = sym (collect_calls-keys tcs [] d (empty-AreNew tcs));
  distinct = collect_calls-Distinct tcs [] tt;
}

collect_calls-keeps :
    (tcs : List ToolCallDelta) (m : Calls) (i : ℤ)
    → lookup i m ≢ none
    → lookup i (collect_calls tcs m) ≢ none
unfolding collect_calls
collect_calls-keeps [] m i h = h
collect_calls-keeps (tc ∷ tcs) m i h =
    collect_calls-keeps tcs (insert tc.index (accumulator tc) m) i
      (ground (arith, lookup-insert tc.index i (accumulator tc) m))

abbrev AreFound : List ℤ → Calls → Type 0
AreFound [] m = Unit {0}
AreFound (i ∷ is) m = (lookup i m ≢ none) × AreFound is m

collect_calls-AreFound :
    (tcs : List ToolCallDelta) (m : Calls) → AreFound (map index_of tcs) (collect_calls tcs m)
unfolding collect_calls
collect_calls-AreFound [] m = tt
collect_calls-AreFound (tc ∷ tcs) m = (
  collect_calls-keeps tcs (insert tc.index (accumulator tc) m) tc.index (
      ground (
        arith,
        lookup-insert tc.index tc.index (accumulator tc) m,
        int_equal_iff tc.index tc.index,
      )),
  collect_calls-AreFound tcs (insert tc.index (accumulator tc) m),
)

call_values-AreFound :
    (order : List ℤ) (calls : Calls) → AreFound order calls → call_values order calls ≢ none
unfolding call_values
call_values-AreFound [] calls f = ground arith
call_values-AreFound (i ∷ is) calls f = elim (Option-cases (lookup i calls)) [
  | inl e ↦ absurd (f.0 e)
  | inr (c, e) ↦ elim (Option-cases (call_values is calls)) [
    | inl n ↦ absurd (call_values-AreFound is calls f.1 n)
    | inr (vs, v) ↦ rw (e, call_values, v) (ground arith)
  ]
]

pub call_values-tool_segment :
    (i : ℤ) (meta : CommonMetadata) (tcs : List ToolCallDelta)
    → call_values (tool_segment i meta tcs).order (tool_segment i meta tcs).calls ≢ none
unfolding tool_segment
call_values-tool_segment i meta tcs =
    call_values-AreFound (map index_of tcs) (collect_calls tcs []) (collect_calls-AreFound tcs [])
