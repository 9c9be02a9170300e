-- ===== src/Sse/Encode/Reading.antt =====
-- `ReadEvent` on the lines of a printable event.
use mathlib.Core.List.{map-append}
use buffered_llm_proxy.Base.{
  ℕ, ◌≡◌, refl, ap, ◌∙◌, Bool, true, false, List, [], ◌∷◌, ◌++◌, append_assoc, append-nil, arith,
  Bytes, codes, equal, ◌==◌, map, if◌then◌else◌,
}
use buffered_llm_proxy.Sse.Encode.{prepend, split_lines}
use buffered_llm_proxy.Sse.Lines.{Line, line, drop_cr, ends_in_cr}
use buffered_llm_proxy.Sse.Lines.Whole.{as_line}
use buffered_llm_proxy.Sse.Reader.{Event, Fields, no_fields, event, read_event_from, read_event}
use buffered_llm_proxy.Sse.Encode.EventLines.{
  with_prefix, optional, payload_lines, event_lines, AllClean, IsPrintable, drop_cr-clean,
}

module _ (at_eof : Bool) where
  read_type :
      (t : Bytes) (ls : List Line)
      → ends_in_cr t ≡ false
      → read_event_from at_eof no_fields (map as_line (optional (codes "event: ") t) ++ ls)
        ≡ read_event_from at_eof (record no_fields { event_type = t }) ls
  unfolding read_event_from equal drop_cr
  read_type [] ls h = refl
  read_type (c ∷ t) ls h = rw (drop_cr-clean (c ∷ t) h)

  read_id :
      (kind t : Bytes) (ls : List Line)
      → ends_in_cr t ≡ false
      → read_event_from at_eof
          (record no_fields { event_type = kind })
          (map as_line (optional (codes "id: ") t) ++ ls)
        ≡ read_event_from at_eof (record no_fields { event_type = kind; id = t }) ls
  unfolding read_event_from equal drop_cr
  read_id kind [] ls h = refl
  read_id kind (c ∷ t) ls h = rw (drop_cr-clean (c ∷ t) h)

-- The lines behind the first, each with its newline in front.
abbrev tails : List Bytes → Bytes
tails [] = []
tails (l ∷ ls) = b'\n' ∷ (l ++ tails ls)

abbrev joined : List Bytes → Bytes
joined [] = []
joined (l ∷ ls) = l ++ tails ls

abbrev IsMore : List Bytes → Type 0
IsMore [] = ⊥
IsMore (_ ∷ _) = Unit {0}

split_lines-IsMore : (b : Bytes) → IsMore (split_lines b)
unfolding split_lines
split_lines-IsMore [] = tt
split_lines-IsMore (c ∷ cs) = go (c == b'\n') (split_lines cs)
  where
    go : (t : Bool) (ls : List Bytes) → IsMore (if t then [] ∷ ls else prepend c ls)
    go true ls = tt
    go false [] = tt
    go false (l ∷ ls) = tt

joined-split :
    (c : ℕ) (cs : Bytes) (ls : List Bytes)
    → IsMore ls
    → joined ls ≡ cs
    → joined (if c == b'\n' then [] ∷ ls else prepend c ls) ≡ c ∷ cs
joined-split c cs [] m e = absurd m
joined-split c cs (l ∷ ls) m e = ground arith

joined-split_lines : (b : Bytes) → joined (split_lines b) ≡ b
unfolding split_lines
joined-split_lines [] = refl
joined-split_lines (c ∷ cs) =
    joined-split c cs (split_lines cs) (split_lines-IsMore cs) (joined-split_lines cs)

module _ (at_eof : Bool) where
  read_data :
      (f : Fields) (l : Bytes) (more : List Line)
      → ends_in_cr l ≡ false
      → read_event_from at_eof f (as_line (codes "data: " ++ l) ∷ more)
        ≡ read_event_from at_eof
            (record f {
              buffer = (if f.has_data then f.buffer ++ (b'\n' ∷ []) else f.buffer) ++ l;
              has_data = true;
            })
            more
  unfolding read_event_from equal drop_cr
  read_data f [] more h = refl
  read_data f (c ∷ l) more h = rw (drop_cr-clean (c ∷ l) h)

  read_tails :
      (size : ℕ) (f : Fields) (ls : List Bytes) (more : List Line)
      → AllClean size ls
      → read_event_from at_eof
          (record f { has_data = true })
          (map as_line (with_prefix (codes "data: ") ls) ++ more)
        ≡ read_event_from at_eof (record f { buffer = f.buffer ++ tails ls; has_data = true }) more
  read_tails size f [] more a = rw (append-nil f.buffer)
  read_tails size f (l ∷ ls) more a =
      read_data (record f { has_data = true }) l
        (map as_line (with_prefix (codes "data: ") ls) ++ more) a.0
      ∙ read_tails size (record f { buffer = (f.buffer ++ (b'\n' ∷ [])) ++ l }) ls more a.2
      ∙ ap (λ b. read_event_from at_eof (record f { buffer = b; has_data = true }) more)
          (simp append_assoc)

  read_split :
      (size : ℕ) (kind id : Bytes) (ls : List Bytes) (more : List Line)
      → IsMore ls
      → AllClean size ls
      → read_event_from at_eof
          (record no_fields { event_type = kind; id = id })
          (map as_line (with_prefix (codes "data: ") ls) ++ more)
        ≡ read_event_from at_eof
            (record { event_type = kind; id = id; buffer = joined ls; has_data = true })
            more
  read_split size kind id [] more m a = absurd m
  read_split size kind id (l ∷ ls) more m a =
      read_data (record no_fields { event_type = kind; id = id }) l
        (map as_line (with_prefix (codes "data: ") ls) ++ more) a.0
      ∙ read_tails size (record no_fields { event_type = kind; id = id; buffer = l }) ls more a.2

  read_payload :
      (size : ℕ) (kind id b : Bytes) (more : List Line)
      → AllClean size (split_lines b)
      → read_event_from at_eof
          (record no_fields { event_type = kind; id = id })
          (map as_line (payload_lines b) ++ more)
        ≡ read_event_from at_eof
            (record { event_type = kind; id = id; buffer = b; has_data = true })
            more
  unfolding read_event_from equal drop_cr
  read_payload size kind id [] more a = refl
  read_payload size kind id (c ∷ cs) more a =
      read_split size kind id (split_lines (c ∷ cs)) more (split_lines-IsMore (c ∷ cs)) a
      ∙ ap
          (λ b.
            read_event_from at_eof
              (record { event_type = kind; id = id; buffer = b; has_data = true }) more)
          (joined-split_lines (c ∷ cs))

  regroup :
      (ts is ps : List Bytes) (more : List Line)
      → map as_line (ts ++ (is ++ (ps ++ ([] ∷ [])))) ++ more
        ≡ map as_line ts ++ (map as_line is ++ (map as_line ps ++ (line [] ∷ more)))
  unfolding drop_cr
  regroup ts is ps more = simp (map-append, append_assoc)

  -- The lines of a printable event are read as that event.
  pub read_event_lines :
      (size : ℕ) (ev : Event) (more : List Line)
      → IsPrintable size ev
      → read_event at_eof (map as_line (event_lines ev) ++ more) ≡ event ev more
  unfolding read_event event_lines
  read_event_lines size ev more p =
      ap (read_event_from at_eof no_fields) (
        regroup (optional (codes "event: ") ev.type) (optional (codes "id: ") ev.id)
          (payload_lines ev.payload) more)
      ∙ read_type at_eof ev.type _ p.type_clean.1
      ∙ read_id at_eof ev.type ev.id _ p.id_clean.1
      ∙ read_payload size ev.type ev.id ev.payload (line [] ∷ more) p.payload_clean
      ∙ (unfold read_event_from in refl)
