-- ===== src/Updater/Models/Valid.antt =====
-- Well-formed objects: each part was built, so it has passed its own check.
use neko_family_proxy.Prelude.{◌≡◌, Option, none, some, List, [], ◌∷◌, Check, ok}
use neko_family_proxy.Updater.Models.{
  Binding, InstalledReleaseSelector, Generation, DirectoryIdentity, Transaction, Cleanup, Rollback,
  State,
}
use neko_family_proxy.Updater.Models.Checks.{
  check_binding, check_selector, check_generation, check_directory, check_transaction,
  check_cleanup, check_rollback, check_state,
}

abbrev pub Passes : Check → Type 0
Passes c = c ≡ ok tt

abbrev pub Each {ℓ} : {A : Type ℓ} → (A → Type 0) → Option A → Type 0
Each P none = Unit
Each P (some a) = P a

abbrev pub Every {ℓ} : {A : Type ℓ} → (A → Type 0) → List A → Type 0
Every P [] = Unit
Every P (a ∷ rest) = P a × Every P rest

abbrev pub BindingIsValid : Binding → Type 0
BindingIsValid b = Passes (check_binding b)

abbrev pub SelectorIsValid : InstalledReleaseSelector → Type 0
SelectorIsValid s = Passes (check_selector s)

abbrev pub DirectoryIsValid : DirectoryIdentity → Type 0
DirectoryIsValid d = Passes (check_directory d)

pub record GenerationIsValid (g : Generation) : Type 0 where
  pub own : Passes (check_generation g)
  pub binding : BindingIsValid g.binding
  pub selector : Each SelectorIsValid g.selector

pub record TransactionIsValid (t : Transaction) : Type 0 where
  pub own : Passes (check_transaction t)
  pub candidate : GenerationIsValid t.candidate
  pub old : Each GenerationIsValid t.old
  pub incoming : DirectoryIsValid t.incoming
  pub staging : Each DirectoryIsValid t.staging

pub record CleanupIsValid (c : Cleanup) : Type 0 where
  pub own : Passes (check_cleanup c)
  pub directory : DirectoryIsValid c.directory

pub record RollbackIsValid (r : Rollback) : Type 0 where
  pub own : Passes (check_rollback r)
  pub target : GenerationIsValid r.target
  pub scratch : Every CleanupIsValid r.scratch

pub record IsValid (s : State) : Type 0 where
  pub own : Passes (check_state s)
  pub committed : Each GenerationIsValid s.committed
  pub previous : Each GenerationIsValid s.previous
  pub highwater : Each BindingIsValid s.highwater
  pub observed : Each BindingIsValid s.observed
  pub failed : Each BindingIsValid s.failed
  pub transaction : Each TransactionIsValid s.transaction
  pub cleanup : Each (Every CleanupIsValid) s.cleanup
  pub rollback : Each RollbackIsValid s.rollback
