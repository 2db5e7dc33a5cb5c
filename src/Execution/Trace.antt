-- ===== src/Execution/Trace.antt =====
-- trace_buffer.py: the coalescing buffer of transport deltas. Each call below is what runs under
-- the buffer's lock; the write to the file is the environment's, which says how it went. The file is
-- a list of lines, and of pieces of lines that a failed write left without their newline.
use angelus.Prelude.{
  ℕ, zero, suc, ◌+◌, Bool, true, false, List, [], ◌∷◌, ◌++◌, leb, max, length, map, if◌then◌else◌,
}

-- How `_flush_locked` goes up to an `OSError`: all of the batch is synced, the directory cannot be
-- made, or the write fails behind some records, and then perhaps in the middle of the next one.
pub data WriteOutcome : Type 0 where
  synced no_directory : WriteOutcome
  fails_after : ℕ → Bool → WriteOutcome

-- The same, and an error of another kind behind some records, such as the `UnicodeEncodeError` of a
-- text with a lone surrogate.
pub data FlushOutcome : Type 0 where
  written : WriteOutcome → FlushOutcome
  unencodable : ℕ → FlushOutcome

-- What a call raises.
pub data Raised : Type 0 where
  nothing os_error runtime_error other_error : Raised

abbrev pub has_raised : Raised → Bool
has_raised nothing = false
has_raised _ = true

-- The thread of `_run`.
pub data Flusher : Type 0 where
  unstarted running dead : Flusher

-- `if self._thread is None`
abbrev pub after_start : Flusher → Flusher
after_start unstarted = running
after_start running = running
after_start dead = dead

-- A record with its `stream_sequence`.
pub record Entry (D : Type 0) : Type 0 where
  pub sequence : ℕ
  pub delta : D

-- A record with its newline, or the beginning of a line.
pub data Chunk (D : Type 0) : Type 0 where
  whole : Entry D → Chunk D
  torn : Chunk D

pub record TraceBuffer (D : Type 0) : Type 0 where
  pub file : List (Chunk D)
  pub pending : List (Entry D)
  pub sequence : ℕ
  pub last_committed_sequence : ℕ
  pub flush_at : ℕ
  pub flusher : Flusher
  pub closed : Bool
  pub failed : Bool

module _ {D : Type 0} where
  -- `__init__`
  unfoldable pub open_buffer : ℕ → TraceBuffer D
  open_buffer flush_at = record {
    file = [];
    pending = [];
    sequence = 0;
    last_committed_sequence = 0;
    flush_at = max 1 flush_at;
    flusher = unstarted;
    closed = false;
    failed = false;
  }

  abbrev pub last_sequence : Entry D → List (Entry D) → ℕ
  last_sequence e [] = e.sequence
  last_sequence _ (e ∷ es) = last_sequence e es

  -- What a failed write leaves in the file: the first records, and perhaps a piece of the next.
  abbrev pub partly : ℕ → Bool → List (Entry D) → List (Chunk D)
  partly n cut [] = []
  partly zero true (e ∷ es) = torn ∷ []
  partly zero false (e ∷ es) = []
  partly (suc n) cut (e ∷ es) = whole e ∷ partly n cut es

  -- `_flush_locked`, on the batch that it takes out of the pending records: only an `OSError` of the
  -- write itself puts the batch back.
  abbrev pub write_batch : FlushOutcome → TraceBuffer D → List (Entry D) → TraceBuffer D × Raised
  write_batch w b [] = (b, nothing)
  write_batch (written synced) b (e ∷ es) = (
    record b {
      file = b.file ++ map whole (e ∷ es);
      pending = [];
      last_committed_sequence = last_sequence e es;
    },
    nothing,
  )
  write_batch (written no_directory) b (e ∷ es) = (record b { pending = [] }, os_error)
  write_batch (written (fails_after n cut)) b (e ∷ es) =
      (record b { file = b.file ++ partly n cut (e ∷ es); pending = e ∷ es }, os_error)
  write_batch (unencodable n) b (e ∷ es) =
      (record b { file = b.file ++ partly n false (e ∷ es); pending = [] }, other_error)

  unfoldable pub flush_locked : FlushOutcome → TraceBuffer D → TraceBuffer D × Raised
  flush_locked w b = write_batch w b b.pending

  abbrev pub buffered : D → TraceBuffer D → TraceBuffer D
  buffered delta b = record b {
    pending = b.pending ++ record { sequence = b.sequence + 1; delta = delta } ∷ [];
    sequence = b.sequence + 1;
    flusher = after_start b.flusher;
  }

  -- `append`: a full batch is flushed at once.
  unfoldable pub append : FlushOutcome → D → TraceBuffer D → TraceBuffer D × Raised
  unfolding flush_locked
  append w delta b =
      if b.closed
      then (b, nothing)
      else if leb b.flush_at (length (buffered delta b).pending)
      then flush_locked w (buffered delta b)
      else (buffered delta b, nothing)

  unfoldable pub flush : FlushOutcome → TraceBuffer D → TraceBuffer D × Raised
  unfolding flush_locked
  flush w b = flush_locked w b

  abbrev pub closing : TraceBuffer D × Raised → TraceBuffer D × Raised
  closing (b, nothing) = (record b { closed = true }, if b.failed then runtime_error else nothing)
  closing (b, raised) = (b, raised)

  -- `close`: a failed flush raises before the buffer is marked closed; an earlier failure of the
  -- background flusher raises after.
  unfoldable pub close : FlushOutcome → TraceBuffer D → TraceBuffer D × Raised
  unfolding flush_locked
  close w b = if b.closed then (b, nothing) else closing (flush_locked w b)

  -- `_run` catches an `OSError`; any other error ends its thread.
  abbrev pub record_failure : TraceBuffer D × Raised → TraceBuffer D
  record_failure (b, nothing) = b
  record_failure (b, os_error) = record b { failed = true }
  record_failure (b, runtime_error) = record b { flusher = dead }
  record_failure (b, other_error) = record b { flusher = dead }

  abbrev pub round : Flusher → TraceBuffer D × Raised → TraceBuffer D → TraceBuffer D
  round unstarted r b = b
  round running r b = record_failure r
  round dead r b = b

  -- One round of `_run`, where its thread runs.
  unfoldable pub tick : FlushOutcome → TraceBuffer D → TraceBuffer D
  unfolding flush_locked
  tick w b = round b.flusher (flush_locked w b) b
