-- ===== src/Base/Actions.antt =====
-- Methods that change a state `X` and have a result of type `error`.
use mup.Base.{Option, none, some}
use mup.Base.Results.{Error}

abbrev pub Method : Type 0 → Type 0
Method X = X → Option Error × X

module _ {X : Type 0} where
  infixl 5 ◌>>◌
  -- `if err := m(); err != nil { return err }`, then the rest.
  unfoldable pub ◌>>◌ : Method X → Method X → Method X
  ◌>>◌ m k w = let (e, w') = m w in elim e [ some err ↦ (some err, w') | none ↦ k w' ]

  -- `if err := m(); err != nil { return wrap(err) }`
  unfoldable pub wrap_error : (Error → Error) → Method X → Method X
  wrap_error f m w =
      let (e, w') = m w in elim e [ some err ↦ (some (f err), w') | none ↦ (none, w') ]

  -- `if err := m(); err != nil { handle(err) }`, where the error goes no further.
  unfoldable pub on_failure : (Error → X → X) → Method X → X → X
  on_failure handle m w = let (e, w') = m w in elim e [ some err ↦ handle err w' | none ↦ w' ]

  -- `_ = m()`
  unfoldable pub ignore_error : Method X → X → X
  ignore_error m w = (m w).1
