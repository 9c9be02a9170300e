-- ===== src/Metrics/Models.antt =====
-- The accumulators of the models.
use buffered_llm_proxy.Base.{
  ℕ, ◌+◌, ◌%◌, ◌≤◌, ◌<◌, ◌^◌, ◌≡◌, refl, ap, ◌∙◌, Bool, List, [], ◌∷◌, Bytes, codes, is_empty,
  equal, equal_iff, arith, if◌then◌else◌, bytes_eq, Bool-cases, inl, inr,
}
use buffered_llm_proxy.Base.Map.{lookup, lookup-insert}
use buffered_llm_proxy.Base.Word.{add64, add64-small, signed_le_iff}
use buffered_llm_proxy.Metrics.{
  ModelAccumulator, StreamMetrics, no_metrics, new_accumulator, or_new, first_or, decoded,
  accumulate, model_name, record_model_metrics,
}

add64-mod : (a n k : ℕ) → a ≡ n % 2 ^ 64 → add64 a k ≡ (n + k) % 2 ^ 64
unfolding add64
add64-mod a n k h = omega (arith, h)

-- The arguments of one call of `RecordModelMetrics`.
pub record Recorded : Type 0 where
  pub model : Bytes
  pub tokens : ℕ
  pub ttft : ℕ
  pub upstream : ℕ
  pub clients : List ℕ

abbrev record_one : Recorded → StreamMetrics → StreamMetrics
record_one r m = record_model_metrics r.model r.tokens r.ttft r.upstream r.clients m

unfoldable pub record_all : List Recorded → StreamMetrics → StreamMetrics
record_all [] m = m
record_all (r ∷ rs) m = record_all rs (record_one r m)

-- A request counts for the name of its model, and for `unknown` if it has none.
abbrev pub is_of : Bytes → Recorded → Bool
is_of name r = equal (if is_empty r.model then codes "unknown" else r.model) name

-- The sum of a number over the requests of a name.
unfoldable pub sum_of : (Recorded → ℕ) → Bytes → List Recorded → ℕ
sum_of f name [] = 0
sum_of f name (r ∷ rs) = let rest = sum_of f name rs in if is_of name r then f r + rest else rest

-- What a name has in the metrics; nothing, if it has no entry.
abbrev pub entry : Bytes → StreamMetrics → ModelAccumulator
entry name m = or_new (lookup name m.models)

entry-record_one :
    (name : Bytes) (r : Recorded) (m : StreamMetrics)
    → entry name (record_one r m) ≡ (
        if is_of name r
        then accumulate r.tokens r.ttft r.upstream (first_or r.clients r.upstream) (entry name m)
        else entry name m)
unfolding record_model_metrics
entry-record_one name r m =
    let key = model_name r.model in
    let add : ModelAccumulator → ModelAccumulator =
      accumulate r.tokens r.ttft r.upstream (first_or r.clients r.upstream) in
    let read = ap or_new (lookup-insert key name (add (entry key m)) m.models) in
    elim (Bool-cases (is_of name r)) [
      | inl t ↦ read ∙ rw t (ap (λ k. add (entry k m)) ((equal_iff key name).0 t))
      | inr f ↦ read ∙ rw f refl
    ]

module _ (of_request : Recorded → ℕ) (of_entry : ModelAccumulator → ℕ)
    (adds : (r : Recorded) (a : ModelAccumulator)
      → of_entry (accumulate r.tokens r.ttft r.upstream (first_or r.clients r.upstream) a)
        ≡ add64 (of_entry a) (of_request r)) where
  -- A counter that each request adds to is a sum over the requests, modulo 2 ^ 64.
  entry-record_all :
      (name : Bytes) (rs : List Recorded) (m : StreamMetrics) (n : ℕ)
      → of_entry (entry name m) ≡ n % 2 ^ 64
      → of_entry (entry name (record_all rs m)) ≡ (n + sum_of of_request name rs) % 2 ^ 64
  unfolding record_all sum_of
  entry-record_all name [] m n h = h ∙ omega arith
  entry-record_all name (r ∷ rs) m n h =
      let e = ap of_entry (entry-record_one name r m) in
      elim (Bool-cases (is_of name r)) [
        | inl t ↦ rw t (
            entry-record_all name rs (record_one r m) (n + of_request r) (
              e
              ∙ rw t
                  (adds r (entry name m) ∙ add64-mod (of_entry (entry name m)) n (of_request r) h))
            ∙ omega arith)
        | inr f ↦ rw f (entry-record_all name rs (record_one r m) n (e ∙ rw f h))
      ]

  entry-all :
      (name : Bytes) (rs : List Recorded)
      → of_entry new_accumulator ≡ 0 % 2 ^ 64
      → of_entry (entry name (record_all rs no_metrics)) ≡ sum_of of_request name rs % 2 ^ 64
  unfolding lookup
  entry-all name rs h = entry-record_all name rs no_metrics 0 h ∙ omega arith

models-record_all :
    (rs : List Recorded) (m : StreamMetrics)
    → record (record_all rs m) { models = [] } ≡ record m { models = [] }
unfolding record_all record_model_metrics
models-record_all [] m = refl
models-record_all (r ∷ rs) m = models-record_all rs (record_one r m)

-- After any requests, recorded one after the other from empty metrics, every name has, modulo
-- 2 ^ 64, the number of its requests and the sums of their tokens, of their times to the first
-- token and of their durations at the upstream; a request without a model is one of `unknown`. No
-- other counter has changed.
pub record_all_lem :
    (rs : List Recorded) (name : Bytes)
    → let m = record_all rs no_metrics in
      let a = entry name m in
      (a.requests ≡ sum_of (λ r. 1) name rs % 2 ^ 64)
      × (a.total_tokens ≡ sum_of (λ r. r.tokens) name rs % 2 ^ 64)
      × (a.total_ttft_ns ≡ sum_of (λ r. r.ttft) name rs % 2 ^ 64)
      × (a.total_generation_duration_ns ≡ sum_of (λ r. r.upstream) name rs % 2 ^ 64)
      × (record m { models = [] } ≡ no_metrics)
unfolding accumulate
record_all_lem rs name = (
  entry-all (λ r. 1) (λ a. a.requests) (λ r a. refl) name rs refl,
  entry-all (λ r. r.tokens) (λ a. a.total_tokens) (λ r a. refl) name rs refl,
  entry-all (λ r. r.ttft) (λ a. a.total_ttft_ns) (λ r a. refl) name rs refl,
  entry-all (λ r. r.upstream) (λ a. a.total_generation_duration_ns) (λ r a. refl) name rs refl,
  models-record_all rs no_metrics,
)

-- Decode tokens never exceed the tokens: if they do not before a request, they do not after it, as
-- long as the sum of the tokens does not overflow.
pub decode_tokens-le :
    (tokens ttft upstream client : ℕ) (a : ModelAccumulator)
    → a.decode_tokens ≤ a.total_tokens
    → a.total_tokens + tokens < 2 ^ 63
    → let b = accumulate tokens ttft upstream client a in b.decode_tokens ≤ b.total_tokens
unfolding accumulate
decode_tokens-le tokens ttft upstream client a h k = ground (
  arith,
  signed_le_iff tokens 1,
  add64-small a.total_tokens tokens,
  add64-small a.decode_tokens (decoded tokens),
)
