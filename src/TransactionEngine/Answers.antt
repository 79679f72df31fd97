-- ===== src/TransactionEngine/Answers.antt =====
-- Every call of the transaction engine (src/engine/transaction_engine.ipp), in every state, against
-- the abstract database.
use extpp.Engine.{Bytes}
use extpp.TransactionEngine.{TransactionEngine}
use extpp.TransactionEngine.Session.{
  Command, Database, outside, inside, next, refusal, execute, Allowed, Represents, Answers,
}
use extpp.TransactionEngine.Outside.{outside-Answers}
use extpp.TransactionEngine.Inside.{inside-Answers}

module _ (malloc_block : Bytes) where
  abbrev E : Type 0
  E = TransactionEngine malloc_block

  pub execute-Answers :
      (command : Command) (e : E) (d : Database)
      → Represents malloc_block e d
      → Allowed malloc_block command e
      → Answers malloc_block (execute malloc_block command e) (refusal command d) (next command d)
  execute-Answers command e (outside c r m) rep allowed =
      outside-Answers malloc_block command e c r m rep allowed
  execute-Answers command e (inside c r v m w ps) rep allowed =
      inside-Answers malloc_block command e c r v m w ps rep allowed
