-- ===== src/Worker/Handler/Statements.antt =====
-- The handler of services/worker-image/cmd/worker/main.go as a list of statements.
use media_forge.Prelude.{ℕ, ◌≡◌, refl, sym, ap, ◌∙◌, some, List, [], ◌∷◌, ◌++◌, ℤ, All, All-append}
use media_forge.Database.{Tables, Statement, execute}
use media_forge.Database.Abstract.{or_same, run_statements, run_statements-last}
use media_forge.Worker.Consume.{Job}
use media_forge.Worker.Processor.{Imaging, Options, Variant}
use media_forge.Worker.Services.{Services, World}
use media_forge.Worker.Handler.{handle}
use media_forge.Worker.Handler.Keeps.{About, handle-Keeps}
use media_forge.Worker.Handler.Frame.{All-Any}

module _ (S : Services) (job : Job) where
  open S use {Outside}

  -- A statement about the job, whatever the variant.
  abbrev pub IsOwn : Statement × ℕ → Type 0
  IsOwn (s, now) = About job (λ (v : Variant). Unit {0}) s

  -- The tables after some statements about the job.
  abbrev pub Follows : Tables → Tables → Type 0
  Follows before after =
      (ops : List (Statement × ℕ)) × All IsOwn ops × (after ≡ run_statements S.uuid ops before)

  Follows-keep :
      (before : Tables) (s : Statement) (now : ℕ) (t t' : Tables)
      → About job (λ (v : Variant). Unit {0}) s
      → execute S.uuid s now t ≡ some t'
      → Follows before t
      → Follows before t'
  Follows-keep before s now t t' about e (ops, own, same) = (
    ops ++ (s, now) ∷ [],
    All-append IsOwn ops ((s, now) ∷ []) own (about, tt),
    sym (
        run_statements-last S.uuid ops s now before
        ∙ ap (λ x. or_same S.uuid x (execute S.uuid s now x)) (sym same)
        ∙ ap (or_same S.uuid t) e),
  )

  -- Whatever fails on the way, the handler does to the tables what some list of statements does, each
  -- of which sets the status of its job or records an artifact of it.
  pub handle-Follows :
      (I : Imaging) (options : Options) (attempt : ℤ) (w : World Outside)
      → Follows w.tables (handle S I options job attempt w).1.tables
  unfolding run_statements
  handle-Follows I options attempt w =
      handle-Keeps S I options job (λ (v : Variant). Unit {0}) (Follows w.tables)
        (Follows-keep w.tables) (λ src vs e. All-Any vs) attempt w ([], tt, refl)
