-- ===== src/TransactionEngine/Outside.antt =====
-- The calls of the transaction engine (src/engine/transaction_engine.ipp) between two transactions,
-- against the abstract database.
use extpp.Prelude.{
  ℕ, ◌*◌, ◌≡◌, ◌∙◌, sym, ap, true, false, List, [], none, ok, length, arith, inl, inr,
}
use extpp.MemoryFile.{MemoryFile}
use extpp.Journal.{has_committed_changes}
use extpp.Journal.History.{Transaction}
use extpp.Engine.{Bytes}
use extpp.TransactionEngine.{TransactionEngine, value_or, begin, checkpoint}
use extpp.TransactionEngine.Device.{Disk, base}
use extpp.TransactionEngine.State.{Quiet, Active-ext}
use extpp.TransactionEngine.Written.{last_size, size-last_size}
use extpp.TransactionEngine.Changed.{changed}
use extpp.TransactionEngine.Within.{NonePinned-pinned_of, begin-Active}
use extpp.TransactionEngine.Checkpoint.{checkpoint-Quiet}
use extpp.TransactionEngine.Refusals.{Quiet-refuses, write_block-refused, unpin-refused}
use extpp.TransactionEngine.Session.{
  Command, begun, committed, rolled_back, checkpointed, pinned, unpinned, wrote, grew, outside,
  next, refusal, execute, Allowed, Represents, Answers,
}

module _ (malloc_block : Bytes) where
  abbrev E : Type 0
  E = TransactionEngine malloc_block

  begin-changed :
      (e e' : E)
      → begin malloc_block e ≡ ok e'
      → changed malloc_block e'.base ≡ changed malloc_block e.base
  unfolding begin
  begin-changed e e' h = ground (arith, h)

  Quiet-changed :
      (disk : Disk) (ts : List Transaction) (e : E)
      → Quiet malloc_block disk ts e
      → changed malloc_block e.base ≡ false
  Quiet-changed disk ts e q = ground (arith, q.clean, q.journal_idle.idle)

  -- A checkpoint has nothing to do where the journal has no commit.
  idle_checkpoint :
      (e : E)
      → e.base.state.started ≡ false
      → e.base.state.db.read_only ≡ false
      → e.base.state.log.tail.file.read_only ≡ false
      → e.base.state.log.database_size ≡ none
      → checkpoint malloc_block e ≡ ok e
  unfolding checkpoint has_committed_changes
  idle_checkpoint e stopped db_free log_free absent =
      ground (arith, stopped, db_free, log_free, absent)

  pub outside-Answers :
      (command : Command) (e : E) (c : ℕ → Bytes) (r m : ℕ)
      → Represents malloc_block e (outside c r m)
      → Allowed malloc_block command e
      → Answers malloc_block
          (execute malloc_block command e)
          (refusal command (outside c r m))
          (next command (outside c r m))
  unfolding execute next refusal
  outside-Answers begun e c r m (disk, ts, q, same, recorded, sized) allowed =
      let (e', done, a, none_pinned, size, count) = begin-Active malloc_block disk ts e q in
      let (a', as_many) = Active-ext malloc_block disk ts e' (base disk ts) c a same in
      (
        e',
        done,
        (
          disk,
          ts,
          a',
          same,
          recorded,
          size ∙ sized,
          begin-changed e e' done ∙ Quiet-changed disk ts e q,
          as_many ∙ none_pinned,
        ),
      )
  outside-Answers committed e c r m (disk, ts, q, same, recorded, sized) allowed =
      (Quiet-refuses malloc_block disk ts e 0 0 true q).0
  outside-Answers rolled_back e c r m (disk, ts, q, same, recorded, sized) allowed =
      (Quiet-refuses malloc_block disk ts e 0 0 true q).1
  outside-Answers checkpointed e c r m (disk, ts, q, same, recorded, sized)
        (db_free, whole, bigger, small, inl absent) =
      (
        e,
        idle_checkpoint e q.stopped db_free q.journal_idle.holds.valid.file_writable absent,
        (disk, ts, q, same, recorded, sized),
      )
  outside-Answers checkpointed e c r m (disk, ts, q, same, recorded, sized)
        (db_free, whole, bigger, small, inr logged) =
      let s = q.holds.shows.attached in
      let (e', disk', done, q', kept, whole', blocks, size) =
        checkpoint-Quiet malloc_block disk ts e q logged db_free
          q.journal_idle.holds.valid.file_writable
          (ap (λ (f : MemoryFile). length f.bytes) (sym s.same_db)
            ∙ whole
            ∙ (λ k. s.same_blocks k * s.same_size k))
          (omega (arith, bigger, s.same_blocks))
          (omega (arith, small, ap (λ n. e.size * n) s.same_size)) in
      let now : last_size ts disk.db_blocks ≡ e.size =
        sym (size-last_size disk ts e.base.state.log q.journal_idle)
        ∙ ap (λ o. value_or o disk.db_blocks) logged in
      (
        e',
        done,
        (
          disk',
          [],
          q',
          (λ i inside. kept i ∙ same i inside),
          (unfold last_size in blocks ∙ sym now ∙ recorded),
          size ∙ sized,
        ),
      )
  outside-Answers (pinned i) e c r m (disk, ts, q, same, recorded, sized) allowed =
      (Quiet-refuses malloc_block disk ts e i 0 true q).2
  outside-Answers (unpinned i) e c r m (disk, ts, q, same, recorded, sized) allowed =
      unpin-refused malloc_block e i (NonePinned-pinned_of _ (q.free i))
  outside-Answers (wrote i bytes) e c r m (disk, ts, q, same, recorded, sized) allowed =
      write_block-refused malloc_block e i bytes (NonePinned-pinned_of _ (q.free i))
  outside-Answers (grew n) e c r m (disk, ts, q, same, recorded, sized) allowed =
      (Quiet-refuses malloc_block disk ts e 0 n true q).3
