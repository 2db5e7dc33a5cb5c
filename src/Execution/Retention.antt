-- ===== src/Execution/Retention.antt =====
-- Sequences of calls on the trace buffer: what a reader of the file can rely on.
use angelus.Prelude.{
  all, ℕ, ◌≤◌, ◌<◌, ◌≡◌, refl, Bool, true, false, List, [], ◌∷◌, arith, if◌then◌else◌,
}
use angelus.Execution.Trace.{
  FlushOutcome, written, unencodable, synced, no_directory, fails_after, nothing, Entry,
  TraceBuffer, open_buffer, write_batch, flush_locked, append, flush, closing, close, tick,
}
use angelus.Execution.Durability.{
  is_intact, records, IsRun, Holds, IsValid, IsRun-last, write_batch-IsValid, flush_locked-IsValid,
  append-IsValid, tick-IsValid, close-IsValid,
}

-- The calls that producers, readers, the flusher thread and the owner make on a buffer.
pub data TraceCall (D : Type 0) : Type 0 where
  append_call : FlushOutcome → D → TraceCall D
  flush_call close_call tick_call : FlushOutcome → TraceCall D

abbrev pub outcome_of : {D : Type 0} → TraceCall D → FlushOutcome
outcome_of (append_call w d) = w
outcome_of (flush_call w) = w
outcome_of (close_call w) = w
outcome_of (tick_call w) = w

-- No call loses records or tears a line.
abbrev pub intact_call : {D : Type 0} → TraceCall D → Bool
intact_call c = is_intact (outcome_of c)

module _ {D : Type 0} where
  unfoldable pub run_call : TraceCall D → TraceBuffer D → TraceBuffer D
  run_call (append_call w d) b = (append w d b).0
  run_call (flush_call w) b = (flush w b).0
  run_call (close_call w) b = (close w b).0
  run_call (tick_call w) b = tick w b

  unfoldable pub run_calls : List (TraceCall D) → TraceBuffer D → TraceBuffer D
  unfolding run_call
  run_calls [] b = b
  run_calls (c ∷ cs) b = run_calls cs (run_call c b)

  run_call-IsValid :
      (c : TraceCall D) (b : TraceBuffer D)
      → intact_call c ≡ true
      → IsValid b
      → IsValid (run_call c b)
  unfolding run_call flush
  run_call-IsValid (append_call w d) b intact v = append-IsValid w d b intact v
  run_call-IsValid (flush_call w) b intact v = flush_locked-IsValid w b intact v
  run_call-IsValid (close_call w) b intact v = close-IsValid w b intact v
  run_call-IsValid (tick_call w) b intact v = tick-IsValid w b intact v

  run_calls-IsValid :
      (cs : List (TraceCall D)) (b : TraceBuffer D)
      → all intact_call cs ≡ true
      → IsValid b
      → IsValid (run_calls cs b)
  unfolding run_calls
  run_calls-IsValid [] b intact v = v
  run_calls-IsValid (c ∷ cs) b intact v =
      run_calls-IsValid cs (run_call c b) (ground arith) (run_call-IsValid c b (ground arith) v)

  open_buffer-IsValid : (n : ℕ) → IsValid (open_buffer {D = D} n)
  unfolding open_buffer
  open_buffer-IsValid n = record {
    stored = λ k pos up. absurd (omega arith);
    entire = tt;
    waiting = refl;
    room = omega arith;
  }

  -- Whatever calls are made on a trace buffer, if each write is synced or fails with an
  -- `OSError` of the write itself between two records, then every sequence number up to the
  -- last committed one can be read from the file, and the pending entries carry on from there
  -- without a gap up to the last number given out; a directory that cannot be made, an error of
  -- another kind and a line torn in the middle are excluded.
  pub nothing_lost :
      (cs : List (TraceCall D)) (flush_at n : ℕ)
      → all intact_call cs ≡ true
      → 0 < n
      → n ≤ (run_calls cs (open_buffer flush_at)).last_committed_sequence
      → let b = run_calls cs (open_buffer flush_at) in
        Holds n (records b.file) × IsRun b.last_committed_sequence b.pending b.sequence
  nothing_lost cs flush_at n intact pos up =
      let v = run_calls-IsValid cs (open_buffer flush_at) intact (open_buffer-IsValid flush_at) in
      (v.stored n pos up, v.waiting)

  close_case :
      (w : FlushOutcome) (b : TraceBuffer D) (ps : List (Entry D)) (n : ℕ)
      → IsValid b
      → IsRun b.last_committed_sequence ps b.sequence
      → b.closed ≡ false
      → (closing (write_batch w b ps)).0.closed ≡ true
      → 0 < n
      → n ≤ b.sequence
      → Holds n (records (closing (write_batch w b ps)).0.file)
  close_case w b [] n v run opened shut pos up = v.stored n pos (omega (arith, run))
  close_case (written synced) b (e ∷ es) n v run opened shut pos up =
      (write_batch-IsValid (written synced) b (e ∷ es) refl v run).stored n pos
        (omega (arith, IsRun-last b.last_committed_sequence b.sequence e es run))
  close_case (written no_directory) b (e ∷ es) n v run opened shut pos up = cc
  close_case (written (fails_after k cut)) b (e ∷ es) n v run opened shut pos up = cc
  close_case (unencodable k) b (e ∷ es) n v run opened shut pos up = cc

  close_durable_from :
      (t : Bool) (w : FlushOutcome) (b : TraceBuffer D) (n : ℕ)
      → IsValid b
      → b.closed ≡ false
      → t ≡ false
      → (if t then (b, nothing) else closing (write_batch w b b.pending)).0.closed ≡ true
      → 0 < n
      → n ≤ b.sequence
      → Holds n (records (if t then (b, nothing) else closing (write_batch w b b.pending)).0.file)
  close_durable_from true w b n v opened e shut pos up = cc
  close_durable_from false w b n v opened e shut pos up =
      close_case w b b.pending n v v.waiting opened shut pos up

  -- If `close` marks an open trace buffer closed, then every record that was ever appended can
  -- be read from the file, whatever calls came before and wherever their writes failed, as long
  -- as each failure was an `OSError` of the write itself between two records: a directory that
  -- could not be made, an error of another kind and a line torn in the middle are excluded.
  pub close_durable :
      (cs : List (TraceCall D)) (flush_at : ℕ) (w : FlushOutcome) (n : ℕ)
      → all intact_call cs ≡ true
      → (run_calls cs (open_buffer flush_at)).closed ≡ false
      → (close w (run_calls cs (open_buffer flush_at))).0.closed ≡ true
      → 0 < n
      → n ≤ (run_calls cs (open_buffer flush_at)).sequence
      → Holds n (records (close w (run_calls cs (open_buffer flush_at))).0.file)
  unfolding close flush_locked
  close_durable cs flush_at w n intact opened shut pos up =
      let b = run_calls cs (open_buffer flush_at) in
      close_durable_from b.closed w b n
        (run_calls-IsValid cs (open_buffer flush_at) intact (open_buffer-IsValid flush_at)) opened
        opened shut pos up
