-- ===== src/Updater/Codec/RoundTrip.antt =====
-- What is printed is parsed.
use neko_family_proxy.Prelude.{
  ◌≡◌, ◌≢◌, refl, String, Option, none, some, List, [], ◌∷◌, arith, Result, ok,
}
use neko_family_proxy.Updater.Models.{
  Binding, InstalledReleaseSelector, Generation, DirectoryIdentity, Mutation, Transaction, Cleanup,
  Rollback,
}
use neko_family_proxy.Updater.Models.Valid.{
  BindingIsValid, SelectorIsValid, DirectoryIsValid, GenerationIsValid, TransactionIsValid,
  CleanupIsValid, RollbackIsValid, Each, Every,
}
use neko_family_proxy.Updater.Json.{
  Json, null, boolean, number, negative, floating, text, array, object, get,
}
use neko_family_proxy.Updater.Codec.{
  assert_closed_keys, field, text_field, number_field, optional_of,
}
use neko_family_proxy.Updater.Codec.Names.{
  kind_names-text, mutation_target_names-text, mutation_status_names-text, stage_names-text,
  cleanup_target_names-text, cleanup_status_names-text, mode_names-text, step_names-text,
}
use neko_family_proxy.Updater.Codec.Records.{
  optional_json, binding_json, parse_binding, selector_json, parse_selector, generation_json,
  parse_generation, directory_json, parse_directory, mutation_json, parse_mutation,
}
use neko_family_proxy.Updater.Codec.Transactions.{
  names_json, names_of_items, names_of, repair_json, transaction_json, parse_transaction,
  cleanup_json, parse_cleanup, cleanups_json, parse_cleanups, queue_json, parse_queue,
  rollback_json, parse_rollback,
}

optional_of-some :
    {A : Type 0}
    → (parse : Json → Result A) (v : Json) (a : A) → v ≢ null
    → parse v ≡ ok a
    → optional_of parse v ≡ ok (some a)
optional_of-some parse null a n h = absurd (n refl)
optional_of-some parse (boolean b) a n h = rw h refl
optional_of-some parse (number b) a n h = rw h refl
optional_of-some parse (negative b) a n h = rw h refl
optional_of-some parse (floating b) a n h = rw h refl
optional_of-some parse (text b) a n h = rw h refl
optional_of-some parse (array b) a n h = rw h refl
optional_of-some parse (object b) a n h = rw h refl

-- A part that may be missing, from what its printer and its parser do.
pub optional-printed :
    {A : Type 0}
    → (P : A → Type 0) (print : A → Json) (parse : Json → Result A) → ((a : A) → print a ≢ null)
    → ((a : A) → P a → parse (print a) ≡ ok a)
    → (o : Option A) → Each P o
    → optional_of parse (optional_json print o) ≡ ok o
optional-printed P print parse n h none v = refl
optional-printed P print parse n h (some a) v = optional_of-some parse (print a) a (n a) (h a v)

pub binding-some : (b : Binding) → binding_json b ≢ null
unfolding binding_json
binding-some b h = ground arith

pub binding-printed : (b : Binding) → BindingIsValid b → parse_binding (binding_json b) ≡ ok b
unfolding parse_binding binding_json assert_closed_keys text_field number_field field get
binding-printed b v = ground (arith, v)

selector-some : (s : InstalledReleaseSelector) → selector_json s ≢ null
unfolding selector_json
selector-some s h = ground arith

selector-printed :
    (s : InstalledReleaseSelector) → SelectorIsValid s → parse_selector (selector_json s) ≡ ok s
unfolding parse_selector selector_json assert_closed_keys text_field field get
selector-printed s v = ground (arith, v)

pub generation-some : (g : Generation) → generation_json g ≢ null
unfolding generation_json
generation-some g h = ground arith

pub generation-printed :
    (g : Generation) → GenerationIsValid g → parse_generation (generation_json g) ≡ ok g
unfolding parse_generation generation_json text_field field get
generation-printed g v =
    let sel =
      optional-printed SelectorIsValid selector_json parse_selector selector-some selector-printed
        g.selector v.selector in
    rw (binding-printed g.binding v.binding, sel) (ground (arith, v.own))

directory-some : (d : DirectoryIdentity) → directory_json d ≢ null
unfolding directory_json
directory-some d h = ground arith

directory-printed :
    (d : DirectoryIdentity) → DirectoryIsValid d → parse_directory (directory_json d) ≡ ok d
unfolding parse_directory directory_json assert_closed_keys text_field field get
directory-printed d v = ground (arith, v)

mutation-some : (m : Mutation) → mutation_json m ≢ null
unfolding mutation_json
mutation-some m h = ground arith

mutation-printed : (m : Mutation) → Unit {0} → parse_mutation (mutation_json m) ≡ ok m
unfolding parse_mutation mutation_json assert_closed_keys field get
mutation-printed m v =
    rw (kind_names-text, mutation_target_names-text, mutation_status_names-text) refl

each_unit : {A : Type 0} → (o : Option A) → Each (λ a. Unit {0}) o
each_unit none = tt
each_unit (some a) = tt

names-printed : (ss : List String) → names_of_items (names_json ss) ≡ ok ss
names-printed [] = refl
names-printed (s ∷ rest) = rw (names-printed rest) refl

repair-printed :
    (o : Option (List String)) → optional_of names_of (optional_json repair_json o) ≡ ok o
repair-printed none = refl
repair-printed (some ss) = rw (names-printed ss) refl

pub transaction-some : (t : Transaction) → transaction_json t ≢ null
unfolding transaction_json
transaction-some t h = ground arith

pub transaction-printed :
    (t : Transaction) → TransactionIsValid t → parse_transaction (transaction_json t) ≡ ok t
unfolding parse_transaction transaction_json assert_closed_keys text_field field get
transaction-printed t v =
    let old =
      optional-printed GenerationIsValid generation_json parse_generation generation-some
        generation-printed t.old v.old in
    let staging =
      optional-printed DirectoryIsValid directory_json parse_directory directory-some
        directory-printed t.staging v.staging in
    let mutation =
      optional-printed (λ m. Unit {0}) mutation_json parse_mutation mutation-some mutation-printed
        t.mutation (each_unit t.mutation) in
    rw
      (
        generation-printed t.candidate v.candidate,
        old,
        directory-printed t.incoming v.incoming,
        staging,
        mutation,
        repair-printed t.repair_components,
        stage_names-text,
      )
      (ground (arith, v.own))

cleanup-printed : (c : Cleanup) → CleanupIsValid c → parse_cleanup (cleanup_json c) ≡ ok c
unfolding parse_cleanup cleanup_json assert_closed_keys text_field field get
cleanup-printed c v =
    rw
      (
        directory-printed c.directory v.directory,
        cleanup_target_names-text,
        cleanup_status_names-text,
      )
      (ground (arith, v.own))

cleanups-printed :
    (cs : List Cleanup) → Every CleanupIsValid cs → parse_cleanups (cleanups_json cs) ≡ ok cs
cleanups-printed [] v = refl
cleanups-printed (c ∷ rest) (v, vs) = rw (cleanup-printed c v, cleanups-printed rest vs) refl

pub queue-some : (cs : List Cleanup) → queue_json cs ≢ null
queue-some cs h = ground arith

pub queue-printed :
    (cs : List Cleanup) → Every CleanupIsValid cs → parse_queue (queue_json cs) ≡ ok cs
unfolding parse_queue
queue-printed cs v = cleanups-printed cs v

pub rollback-some : (r : Rollback) → rollback_json r ≢ null
unfolding rollback_json
rollback-some r h = ground arith

pub rollback-printed : (r : Rollback) → RollbackIsValid r → parse_rollback (rollback_json r) ≡ ok r
unfolding parse_rollback rollback_json assert_closed_keys text_field field get
rollback-printed r v =
    rw
      (
        generation-printed r.target v.target,
        queue-printed r.scratch v.scratch,
        mode_names-text,
        step_names-text,
      )
      (ground (arith, v.own))
