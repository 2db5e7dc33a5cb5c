-- ===== src/Execution/Durability.antt =====
-- The invariant of the trace buffer (trace_buffer.py): what is on disk and what is pending.
use angelus.Prelude.{
  ℕ, zero, suc, ap, not, ◌+◌, ◌≤◌, ◌<◌, ◌≡◌, refl, ◌⊎◌, inl, inr, Bool, true, false, List, [], ◌∷◌,
  ◌++◌, leb, arith, if◌then◌else◌, length, map,
}
use native.Mathlib.Decide.{dec_le}
use angelus.Execution.Trace.{
  FlushOutcome, written, unencodable, synced, no_directory, fails_after, Raised, nothing, os_error,
  runtime_error, other_error, Flusher, unstarted, running, dead, Entry, Chunk, whole, torn,
  TraceBuffer, last_sequence, partly, write_batch, flush_locked, buffered, append, closing, close,
  record_failure, round, tick,
}

-- The outcomes that lose nothing: the batch is synced, or an `OSError` comes between two records.
abbrev pub is_intact : FlushOutcome → Bool
is_intact (written synced) = true
is_intact (written no_directory) = false
is_intact (written (fails_after n cut)) = not cut
is_intact (unencodable n) = false

module _ {D : Type 0} where
  -- The records that a reader finds, line by line: a line that begins with a torn piece is none.
  abbrev pub read : Bool → List (Chunk D) → List (Entry D)
  read glued [] = []
  read glued (torn ∷ cs) = read true cs
  read true (whole e ∷ cs) = read false cs
  read false (whole e ∷ cs) = e ∷ read false cs

  abbrev pub records : List (Chunk D) → List (Entry D)
  records cs = read false cs

  abbrev pub AllWhole : List (Chunk D) → Type 0
  AllWhole [] = Unit
  AllWhole (whole e ∷ cs) = AllWhole cs
  AllWhole (torn ∷ cs) = ⊥

  AllWhole-append : (xs ys : List (Chunk D)) → AllWhole xs → AllWhole ys → AllWhole (xs ++ ys)
  AllWhole-append [] ys h k = k
  AllWhole-append (whole e ∷ xs) ys h k = AllWhole-append xs ys h k
  AllWhole-append (torn ∷ xs) ys h k = absurd h

  AllWhole-map : (es : List (Entry D)) → AllWhole (map whole es)
  AllWhole-map [] = tt
  AllWhole-map (e ∷ es) = AllWhole-map es

  AllWhole-partly : (n : ℕ) (es : List (Entry D)) → AllWhole (partly n false es)
  AllWhole-partly n [] = tt
  AllWhole-partly zero (e ∷ es) = tt
  AllWhole-partly (suc n) (e ∷ es) = AllWhole-partly n es

  records-append :
      (xs ys : List (Chunk D)) → AllWhole xs → records (xs ++ ys) ≡ records xs ++ records ys
  records-append [] ys h = refl
  records-append (whole e ∷ xs) ys h = ap (λ t. e ∷ t) (records-append xs ys h)
  records-append (torn ∷ xs) ys h = absurd h

  records-map : (es : List (Entry D)) → records (map whole es) ≡ es
  records-map [] = refl
  records-map (e ∷ es) = ap (λ t. e ∷ t) (records-map es)

  -- The entries are numbered one by one, from after `from` up to `to`.
  abbrev pub IsRun : ℕ → List (Entry D) → ℕ → Type 0
  IsRun from [] to = from ≡ to
  IsRun from (e ∷ es) to = (e.sequence ≡ suc from) × IsRun (suc from) es to

  -- Some entry has the number.
  abbrev pub Holds : ℕ → List (Entry D) → Type 0
  Holds n [] = ⊥
  Holds n (e ∷ es) = (e.sequence ≡ n) ⊎ Holds n es

  -- Every number up to the last committed one can be read from the file, which has no torn line; the
  -- pending entries follow it without a gap, up to the last number given out.
  pub record IsValid (b : TraceBuffer D) : Type 0 where
    pub stored : (n : ℕ) → 0 < n → n ≤ b.last_committed_sequence → Holds n (records b.file)
    pub entire : AllWhole b.file
    pub waiting : IsRun b.last_committed_sequence b.pending b.sequence
    pub room : 0 < b.flush_at

  IsRun-snoc :
      (from to : ℕ) (es : List (Entry D)) (d : D)
      → IsRun from es to
      → IsRun from (es ++ record { sequence = to + 1; delta = d } ∷ []) (to + 1)
  IsRun-snoc from to [] d h = omega arith
  IsRun-snoc from to (e ∷ es) d h = (h.0, IsRun-snoc (suc from) to es d h.1)

  IsRun-le : (from to : ℕ) (es : List (Entry D)) → IsRun from es to → from ≤ to
  IsRun-le from to [] h = omega arith
  IsRun-le from to (e ∷ es) h = omega (arith, IsRun-le (suc from) to es h.1)

  pub IsRun-last :
      (from to : ℕ) (e : Entry D) (es : List (Entry D))
      → IsRun from (e ∷ es) to
      → last_sequence e es ≡ to
  IsRun-last from to e [] h = omega arith
  IsRun-last from to e (f ∷ es) h = IsRun-last (suc from) to f es h.1

  Holds-left : (n : ℕ) (xs ys : List (Entry D)) → Holds n xs → Holds n (xs ++ ys)
  Holds-left n [] ys h = absurd h
  Holds-left n (x ∷ xs) ys (inl e) = inl e
  Holds-left n (x ∷ xs) ys (inr h) = inr (Holds-left n xs ys h)

  Holds-right : (n : ℕ) (xs ys : List (Entry D)) → Holds n ys → Holds n (xs ++ ys)
  Holds-right n [] ys h = h
  Holds-right n (x ∷ xs) ys h = inr (Holds-right n xs ys h)

  IsRun-Holds :
      (from to n : ℕ) (es : List (Entry D)) → IsRun from es to → from < n → n ≤ to → Holds n es
  IsRun-Holds from to n [] h a b = absurd (omega arith)
  IsRun-Holds from to n (e ∷ es) h a b = elim (dec_le n (suc from)) [
    | yes first ↦ inl (omega arith)
    | no later ↦ inr (IsRun-Holds (suc from) to n es h.1 (omega arith) b)
  ]

  pub write_batch-IsValid :
      (w : FlushOutcome) (b : TraceBuffer D) (ps : List (Entry D))
      → is_intact w ≡ true
      → IsValid b
      → IsRun b.last_committed_sequence ps b.sequence
      → IsValid (write_batch w b ps).0
  write_batch-IsValid w b [] intact v run = v
  write_batch-IsValid (written synced) b (e ∷ es) intact v run = record {
    stored = λ n pos up.
        rw (records-append b.file (map whole (e ∷ es)) v.entire, records-map es)
          (elim (dec_le n b.last_committed_sequence) [
            | yes old ↦ Holds-left n (records b.file) (e ∷ es) (v.stored n pos old)
            | no new ↦ Holds-right n (records b.file) (e ∷ es) (
                IsRun-Holds b.last_committed_sequence b.sequence n (e ∷ es) run (omega arith)
                  (omega (arith, IsRun-last b.last_committed_sequence b.sequence e es run)))
          ]);
    entire = AllWhole-append b.file (map whole (e ∷ es)) v.entire (AllWhole-map (e ∷ es));
    waiting = IsRun-last b.last_committed_sequence b.sequence e es run;
    room = v.room;
  }
  write_batch-IsValid (written no_directory) b (e ∷ es) intact v run = cc
  write_batch-IsValid (written (fails_after k true)) b (e ∷ es) intact v run = cc
  write_batch-IsValid (written (fails_after k false)) b (e ∷ es) intact v run = record {
    stored = λ n pos up.
        rw (records-append b.file (partly k false (e ∷ es)) v.entire)
          (Holds-left n (records b.file) (records (partly k false (e ∷ es))) (v.stored n pos up));
    entire = AllWhole-append b.file (partly k false (e ∷ es)) v.entire (AllWhole-partly k (e ∷ es));
    waiting = run;
    room = v.room;
  }
  write_batch-IsValid (unencodable k) b (e ∷ es) intact v run = cc

  pub flush_locked-IsValid :
      (w : FlushOutcome) (b : TraceBuffer D)
      → is_intact w ≡ true
      → IsValid b
      → IsValid (flush_locked w b).0
  unfolding flush_locked
  flush_locked-IsValid w b intact v = write_batch-IsValid w b b.pending intact v v.waiting

  buffered-IsValid : (d : D) (b : TraceBuffer D) → IsValid b → IsValid (buffered d b)
  buffered-IsValid d b v = record {
    stored = v.stored;
    entire = v.entire;
    waiting = IsRun-snoc b.last_committed_sequence b.sequence b.pending d v.waiting;
    room = v.room;
  }

  either-IsValid :
      (t : Bool) (x y : TraceBuffer D × Raised)
      → IsValid x.0
      → IsValid y.0
      → IsValid (if t then x else y).0
  either-IsValid true x y vx vy = vx
  either-IsValid false x y vx vy = vy

  pub append-IsValid :
      (w : FlushOutcome) (d : D) (b : TraceBuffer D)
      → is_intact w ≡ true
      → IsValid b
      → IsValid (append w d b).0
  unfolding append
  append-IsValid w d b intact v = either-IsValid b.closed _ _ v (
      either-IsValid (leb b.flush_at (length (buffered d b).pending)) _ _
        (flush_locked-IsValid w (buffered d b) intact (buffered-IsValid d b v))
        (buffered-IsValid d b v))

  -- The flags of a buffer play no part.
  flags-IsValid :
      (b : TraceBuffer D) (flusher : Flusher) (closed failed : Bool)
      → IsValid b
      → IsValid (record b { flusher = flusher; closed = closed; failed = failed })
  flags-IsValid b flusher closed failed v = record {
    stored = v.stored;
    entire = v.entire;
    waiting = v.waiting;
    room = v.room;
  }

  closing-IsValid : (r : TraceBuffer D × Raised) → IsValid r.0 → IsValid (closing r).0
  closing-IsValid (b, nothing) v = flags-IsValid b b.flusher true b.failed v
  closing-IsValid (b, os_error) v = v
  closing-IsValid (b, runtime_error) v = v
  closing-IsValid (b, other_error) v = v

  record_failure-IsValid : (r : TraceBuffer D × Raised) → IsValid r.0 → IsValid (record_failure r)
  record_failure-IsValid (b, nothing) v = v
  record_failure-IsValid (b, os_error) v = flags-IsValid b b.flusher b.closed true v
  record_failure-IsValid (b, runtime_error) v = flags-IsValid b dead b.closed b.failed v
  record_failure-IsValid (b, other_error) v = flags-IsValid b dead b.closed b.failed v

  pub tick-IsValid :
      (w : FlushOutcome) (b : TraceBuffer D) → is_intact w ≡ true → IsValid b → IsValid (tick w b)
  unfolding tick
  tick-IsValid w b intact v = by_flusher b.flusher
    where
      by_flusher : (t : Flusher) → IsValid (round t (flush_locked w b) b)
      by_flusher unstarted = v
      by_flusher running =
          record_failure-IsValid (flush_locked w b) (flush_locked-IsValid w b intact v)
      by_flusher dead = v

  pub close-IsValid :
      (w : FlushOutcome) (b : TraceBuffer D)
      → is_intact w ≡ true
      → IsValid b
      → IsValid (close w b).0
  unfolding close
  close-IsValid w b intact v =
      either-IsValid b.closed _ _ v
        (closing-IsValid (flush_locked w b) (flush_locked-IsValid w b intact v))
