-- ===== src/TransactionEngine/Refinement.antt =====
-- Any calls of the transaction engine (src/engine/transaction_engine.ipp) that succeed, against the
-- abstract database.
use extpp.Prelude.{
  ℕ, ◌+◌, ◌≡◌, ◌∙◌, refl, sym, subst, Bool, true, false, if◌then◌else◌, List, [], ◌∷◌, ◌++◌, none,
  ok, err, arith, Option-cases, inl, inr,
}
use extpp.Engine.{Bytes}
use extpp.Engine.Blocks.{remove}
use extpp.Engine.Valid.{update}
use extpp.TransactionEngine.{TransactionEngine}
use extpp.TransactionEngine.Session.{
  Command, begun, committed, rolled_back, checkpointed, pinned, unpinned, wrote, grew, Database,
  outside, inside, next, refusal, execute, Allowed, Represents, Answers,
}
use extpp.TransactionEngine.Answers.{execute-Answers}

unfoldable pub all : List Command → Database → Database
all [] d = d
all (command ∷ commands) d = all commands (next command d)

-- Calls that neither begin nor end a transaction.
abbrev pub IsBody : List Command → Type 0
IsBody [] = Unit {0}
IsBody (begun ∷ commands) = ⊥
IsBody (committed ∷ commands) = ⊥
IsBody (rolled_back ∷ commands) = ⊥
IsBody (checkpointed ∷ commands) = ⊥
IsBody (pinned i ∷ commands) = IsBody commands
IsBody (unpinned i ∷ commands) = IsBody commands
IsBody (wrote i bytes ∷ commands) = IsBody commands
IsBody (grew n ∷ commands) = IsBody commands

-- The blocks after the writes of some calls.
unfoldable pub writes : List Command → (ℕ → Bytes) → ℕ → Bytes
writes [] v = v
writes (wrote i bytes ∷ commands) v = writes commands (update v i bytes)
writes (command ∷ commands) v = writes commands v

-- The size after them.
unfoldable pub size_after : List Command → ℕ → ℕ
size_after [] m = m
size_after (grew n ∷ commands) m = size_after commands (m + n)
size_after (command ∷ commands) m = size_after commands m

-- One of them is a write.
unfoldable pub wrote_any : List Command → Bool → Bool
wrote_any [] w = w
wrote_any (wrote i bytes ∷ commands) w = wrote_any commands true
wrote_any (command ∷ commands) w = wrote_any commands w

unfoldable pins_after : List Command → List ℕ → List ℕ
pins_after [] ps = ps
pins_after (pinned i ∷ commands) ps = pins_after commands (i ∷ ps)
pins_after (unpinned i ∷ commands) ps = pins_after commands (remove i ps)
pins_after (command ∷ commands) ps = pins_after commands ps

unfoldable pub ending : Bool → Command
ending true = committed
ending false = rolled_back

all-body :
    (body : List Command) (last : Command) (c : ℕ → Bytes) (r : ℕ) (v : ℕ → Bytes) (m : ℕ)
    (w : Bool) (ps : List ℕ)
    → IsBody body
    → all (body ++ last ∷ []) (inside c r v m w ps)
      ≡ next last
          (inside c r (writes body v) (size_after body m) (wrote_any body w) (pins_after body ps))
unfolding all next writes size_after wrote_any pins_after
all-body [] last c r v m w ps is_body = refl
all-body (begun ∷ body) last c r v m w ps is_body = absurd is_body
all-body (committed ∷ body) last c r v m w ps is_body = absurd is_body
all-body (rolled_back ∷ body) last c r v m w ps is_body = absurd is_body
all-body (checkpointed ∷ body) last c r v m w ps is_body = absurd is_body
all-body (pinned i ∷ body) last c r v m w ps is_body = all-body body last c r v m w (i ∷ ps) is_body
all-body (unpinned i ∷ body) last c r v m w ps is_body =
    all-body body last c r v m w (remove i ps) is_body
all-body (wrote i bytes ∷ body) last c r v m w ps is_body =
    all-body body last c r (update v i bytes) m true ps is_body
all-body (grew n ∷ body) last c r v m w ps is_body = all-body body last c r v (m + n) w ps is_body

module _ (malloc_block : Bytes) where
  abbrev E : Type 0
  E = TransactionEngine malloc_block

  result_same : (e e' : E) → ok e ≡ ok e' → e ≡ e'
  result_same e e' h = cc

  -- A call that succeeds does to the engine what it does to the abstract database.
  execute-next :
      (command : Command) (e e' : E) (d : Database)
      → Represents malloc_block e d
      → Allowed malloc_block command e
      → execute malloc_block command e ≡ ok e'
      → Represents malloc_block e' (next command d)
  execute-next command e e' d rep allowed done = elim (Option-cases (refusal command d)) [
    | inl absent ↦
        let answered : Answers malloc_block (execute malloc_block command e) none (next command d) =
          subst (λ o. Answers malloc_block (execute malloc_block command e) o (next command d))
            absent (execute-Answers malloc_block command e d rep allowed) in
        let (e'', done', rep') = answered in
        subst (λ x. Represents malloc_block x (next command d))
          (result_same e'' e' (sym done' ∙ done)) rep'
    | inr (x, thrown) ↦
        let bad : execute malloc_block command e ≡ err x =
          subst (λ o. Answers malloc_block (execute malloc_block command e) o (next command d))
            thrown (execute-Answers malloc_block command e d rep allowed) in
        absurd (ground (arith, done, bad))
  ]

  -- Any calls, one after the other, that are allowed and all succeed.
  pub data Run : E → List Command → E → Type 0 where
    finished : {e : E} → Run e [] e
    called :
        {e e₂ : E} {command : Command} {commands : List Command} (e₁ : E)
        → Allowed malloc_block command e
        → execute malloc_block command e ≡ ok e₁
        → Run e₁ commands e₂
        → Run e (command ∷ commands) e₂

  -- After any calls that all succeed, the engine stands for what the same calls make of the abstract
  -- database: its blocks, the size that it has, the size that was recorded last and, within a
  -- transaction, the blocks that are pinned. The calls are allowed where they are made: a block that
  -- is written has the block size, and the size does not become the invalid index. At a checkpoint, the
  -- database file can be written and has whole blocks, no more than the database, the database fits
  -- 64 bits, and the journal has recorded no size or that of the database.
  pub Run-all :
      (e e' : E) (commands : List Command) (d : Database)
      → Run e commands e'
      → Represents malloc_block e d
      → Represents malloc_block e' (all commands d)
  unfolding all
  Run-all e e' [] d finished rep = rep
  Run-all e e' (command ∷ commands) d (called e₁ allowed done rest) rep =
      Run-all e₁ e' commands (next command d) rest (execute-next command e e₁ d rep allowed done)

  -- A transaction is all or nothing, where its calls succeed, a block that is written has the block
  -- size, and the size does not become the invalid index. After its commit, every block reads as the calls
  -- have written it last, or as before where they have not, and the database has the size that it has
  -- grown to, which is also the recorded one if the calls have written a block. After its rollback,
  -- every block reads as before and the database has the size that was recorded last; this is the size
  -- from before the transaction, unless an earlier one has only made the database larger.
  pub Run-atomic :
      (e e' : E) (body : List Command) (keep : Bool) (c : ℕ → Bytes) (r m : ℕ)
      → Represents malloc_block e (outside c r m)
      → IsBody body
      → Run e (begun ∷ (body ++ ending keep ∷ [])) e'
      → Represents malloc_block e' (
          if keep
          then outside
              (writes body c)
              (if wrote_any body false then size_after body m else r)
              (size_after body m)
          else outside c r r)
  unfolding all next ending
  Run-atomic e e' body true c r m rep is_body run =
      subst (Represents malloc_block e') (all-body body committed c r c m false [] is_body)
        (Run-all e e' _ (outside c r m) run rep)
  Run-atomic e e' body false c r m rep is_body run =
      subst (Represents malloc_block e') (all-body body rolled_back c r c m false [] is_body)
        (Run-all e e' _ (outside c r m) run rep)
