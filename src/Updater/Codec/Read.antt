-- ===== src/Updater/Codec/Read.antt =====
-- A state that is read is well-formed.
use mathlib.Core.Path.{subst}
use neko_family_proxy.Prelude.{
  ◌≡◌, refl, Option, none, some, List, [], ◌∷◌, arith, Result, ok, err, Result-cases, inl, inr,
  ◌>>=◌, ◌>>◌, >>=-eq-ok, Check,
}
use neko_family_proxy.Updater.Frame.Words.{Bytes}
use neko_family_proxy.Updater.Codec.States.{
  state_keys, flag_of, dict_of, parse_state, deserialize_state,
}
use neko_family_proxy.Updater.Codec.Names.{stage_names, phase_names}
use neko_family_proxy.Updater.Models.{
  Binding, InstalledReleaseSelector, Generation, DirectoryIdentity, Transaction, Cleanup, Rollback,
  State,
}
use neko_family_proxy.Updater.Models.Valid.{
  BindingIsValid, SelectorIsValid, DirectoryIsValid, GenerationIsValid, TransactionIsValid,
  CleanupIsValid, RollbackIsValid, IsValid, Each, Every,
}
use neko_family_proxy.Updater.Json.{
  Json, null, boolean, number, negative, floating, text, array, object, Items, no_items, item, get,
  canonical_json_loads,
}
use neko_family_proxy.Updater.Codec.{
  assert_closed_keys, field, text_field, number_field, optional_of, items_of, choice_of,
}
use neko_family_proxy.Updater.Codec.Records.{
  parse_binding, parse_selector, parse_generation, parse_directory, parse_mutation, value_or_none,
}
use neko_family_proxy.Updater.Codec.Transactions.{
  names_of, transaction_keys, parse_transaction, parse_cleanup, parse_cleanups, parse_queue,
  parse_rollback,
}

-- A value that was parsed after it was found has what its parser guarantees.
found-read :
    {A : Type 0}
    → (P : A → Type 0) (parse : Json → Result A) → ((v : Json) (a : A) → parse v ≡ ok a → P a)
    → (r : Result Json) (a : A) → (r >>= parse) ≡ ok a
    → P a
found-read P parse h (ok v) a e = h v a e
found-read P parse h (err x) a e = absurd (ground arith)

wrapped : {A : Type 0} → (r : Result A) (a : A) → (r >>= λ b. ok (some b)) ≡ ok (some a) → r ≡ ok a
wrapped (ok b) a e = ground arith
wrapped (err x) a e = absurd (ground arith)

optional_of-some :
    {A : Type 0}
    → (parse : Json → Result A) (v : Json) (a : A) → optional_of parse v ≡ ok (some a)
    → parse v ≡ ok a
optional_of-some parse null a e = absurd (ground arith)
optional_of-some parse (boolean b) a e = wrapped (parse (boolean b)) a e
optional_of-some parse (number n) a e = wrapped (parse (number n)) a e
optional_of-some parse (negative n) a e = wrapped (parse (negative n)) a e
optional_of-some parse (floating f) a e = wrapped (parse (floating f)) a e
optional_of-some parse (text s) a e = wrapped (parse (text s)) a e
optional_of-some parse (array xs) a e = wrapped (parse (array xs)) a e
optional_of-some parse (object ms) a e = wrapped (parse (object ms)) a e

-- A part that may be missing has what its parser guarantees, if it is there.
optional-read :
    {A : Type 0}
    → (P : A → Type 0) (parse : Json → Result A) → ((v : Json) (a : A) → parse v ≡ ok a → P a)
    → (v : Json) (o : Option A) → optional_of parse v ≡ ok o
    → Each P o
optional-read P parse h v none e = tt
optional-read P parse h v (some a) e = h v a (optional_of-some parse v a e)

-- the same for a part of a dictionary
optional_field-read :
    {A : Type 0}
    → (P : A → Type 0) (parse : Json → Result A) → ((v : Json) (a : A) → parse v ≡ ok a → P a)
    → (r : Result Json) (o : Option A) → (r >>= λ v. optional_of parse v) ≡ ok o
    → Each P o
optional_field-read P parse h r o e =
    found-read (Each P) (λ v. optional_of parse v) (optional-read P parse h) r o e

binding-read : (v : Json) (b : Binding) → parse_binding v ≡ ok b → BindingIsValid b
unfolding parse_binding
binding-read (object ms) b h = ground arith
binding-read v b h = absurd (ground arith)

selector-read :
    (v : Json) (s : InstalledReleaseSelector) → parse_selector v ≡ ok s → SelectorIsValid s
unfolding parse_selector
selector-read (object ms) s h = ground arith
selector-read v s h = absurd (ground arith)

directory-read : (v : Json) (d : DirectoryIdentity) → parse_directory v ≡ ok d → DirectoryIsValid d
unfolding parse_directory
directory-read (object ms) d h = ground arith
directory-read v d h = absurd (ground arith)

generation-read : (v : Json) (g : Generation) → parse_generation v ≡ ok g → GenerationIsValid g
unfolding parse_generation
generation-read (object ms) g h = record {
  own = ground arith;
  binding =
      found-read BindingIsValid parse_binding binding-read (field "binding" ms) g.binding
        (ground arith);
  selector =
      optional-read SelectorIsValid parse_selector selector-read (value_or_none (get "selector" ms))
        g.selector (ground arith);
}
generation-read v g h = absurd (ground arith)

-- A value that a statement passed on, for the rest of a proof.
step :
    {A B : Type 0} {C : Type 0}
    → (first : Result A) (rest : A → Result B) {result : B} → (first >>= rest) ≡ ok result
    → ((value : A) → first ≡ ok value → rest value ≡ ok result → C)
    → C
step first rest h go = let (value, e, h') = >>=-eq-ok first rest h in go value e h'

then_ok : {A : Type 0} → (c : Check) (r : Result A) (a : A) → (c >> r) ≡ ok a → r ≡ ok a
then_ok (ok u) r a h = h
then_ok (err x) r a h = absurd (ground arith)

made : {A : Type 0} → (c : Check) (b a : A) → (c >> ok b) ≡ ok a → (c ≡ ok tt) × (b ≡ a)
made (ok u) b a h = (refl, ground arith)
made (err x) b a h = absurd (ground arith)

transaction-read : (v : Json) (t : Transaction) → parse_transaction v ≡ ok t → TransactionIsValid t
unfolding parse_transaction
transaction-read (object ms) t h =
    let h0 = then_ok (assert_closed_keys transaction_keys ms) _ t h in
    step (field "candidate" ms >>= λ v. parse_generation v) _ h0 (λ candidate e1 h1.
      step (field "old" ms >>= λ v. optional_of parse_generation v) _ h1 (λ old e2 h2.
        step (field "incoming" ms >>= λ v. parse_directory v) _ h2 (λ incoming e3 h3.
          step (field "staging" ms >>= λ v. optional_of parse_directory v) _ h3 (λ staging e4 h4.
            step (field "mutation" ms >>= λ v. optional_of parse_mutation v) _ h4 (λ mutation e5 h5.
              step (optional_of names_of (value_or_none (get "repair_components" ms))) _ h5
                (λ repair e6 h6. step (text_field "id" ms) _ h6 (λ id e7 h7.
                  step (text_field "request_id" ms) _ h7 (λ request_id e8 h8.
                    step (field "stage" ms >>= λ v. choice_of stage_names v) _ h8 (λ stage e9 h9.
                      let (own, same) = made _ _ t h9 in
                      subst TransactionIsValid same (record {
                        own = own;
                        candidate =
                            found-read GenerationIsValid parse_generation generation-read
                              (field "candidate" ms) candidate e1;
                        old =
                            optional_field-read GenerationIsValid parse_generation generation-read
                              (field "old" ms) old e2;
                        incoming =
                            found-read DirectoryIsValid parse_directory directory-read
                              (field "incoming" ms) incoming e3;
                        staging =
                            optional_field-read DirectoryIsValid parse_directory directory-read
                              (field "staging" ms) staging e4;
                      }))))))))))
transaction-read v t h = absurd (ground arith)

cleanup-read : (v : Json) (c : Cleanup) → parse_cleanup v ≡ ok c → CleanupIsValid c
unfolding parse_cleanup
cleanup-read (object ms) c h = record {
  own = ground arith;
  directory =
      found-read DirectoryIsValid parse_directory directory-read (field "directory" ms) c.directory
        (ground arith);
}
cleanup-read v c h = absurd (ground arith)

cleanups-read :
    (xs : Items) (cs : List Cleanup) → parse_cleanups xs ≡ ok cs → Every CleanupIsValid cs
cleanups-read no_items [] h = tt
cleanups-read no_items (c ∷ cs) h = absurd (ground arith)
cleanups-read (item v xs) [] h = elim (Result-cases (parse_cleanup v)) [
  | inr (x, p) ↦ absurd (ground arith)
  | inl (c, p) ↦ elim (Result-cases (parse_cleanups xs)) [
    | inr (x, q) ↦ absurd (ground arith)
    | inl (cs, q) ↦ absurd (ground arith)
  ]
]
cleanups-read (item v xs) (c ∷ cs) h =
    (cleanup-read v c (ground arith), cleanups-read xs cs (ground arith))

queue-read : (v : Json) (cs : List Cleanup) → parse_queue v ≡ ok cs → Every CleanupIsValid cs
unfolding parse_queue
queue-read v cs h = elim (Result-cases (items_of v)) [
  | inr (x, p) ↦ absurd (ground arith)
  | inl (xs, p) ↦ cleanups-read xs cs (ground arith)
]

rollback-read : (v : Json) (r : Rollback) → parse_rollback v ≡ ok r → RollbackIsValid r
unfolding parse_rollback
rollback-read (object ms) r h = record {
  own = ground arith;
  target =
      found-read GenerationIsValid parse_generation generation-read (field "target" ms) r.target
        (ground arith);
  scratch =
      found-read (Every CleanupIsValid) parse_queue queue-read (field "scratch" ms) r.scratch
        (ground arith);
}
rollback-read v r h = absurd (ground arith)

state-read : (v : Json) (s : State) → parse_state v ≡ ok s → IsValid s
unfolding parse_state
state-read (object ms) s h =
    let h0 = then_ok (assert_closed_keys state_keys ms) _ s h in
    step (field "committed" ms >>= λ v. optional_of parse_generation v) _ h0 (λ committed e1 h1.
      step (field "previous" ms >>= λ v. optional_of parse_generation v) _ h1 (λ previous e2 h2.
        step (field "highwater" ms >>= λ v. optional_of parse_binding v) _ h2 (λ highwater e3 h3.
          step (field "observed" ms >>= λ v. optional_of parse_binding v) _ h3 (λ observed e4 h4.
            step (field "failed" ms >>= λ v. optional_of parse_binding v) _ h4 (λ failed e5 h5.
              step (field "transaction" ms >>= λ v. optional_of parse_transaction v) _ h5
                (λ transaction e6 h6.
                  step (field "cleanup" ms >>= λ v. optional_of parse_queue v) _ h6
                    (λ cleanup e7 h7.
                      step (field "rollback" ms >>= λ v. optional_of parse_rollback v) _ h7
                        (λ rollback e8 h8.
                          step (field "evidence" ms >>= λ v. dict_of v) _ h8 (λ evidence e9 h9.
                            step (number_field "schema_version" ms) _ h9 (λ schema_version e10 h10.
                              step (number_field "revision" ms) _ h10 (λ revision e11 h11.
                                step (text_field "installation_id" ms) _ h11
                                  (λ installation_id e12 h12.
                                    step (number_field "helper_protocol" ms) _ h12
                                      (λ helper_protocol e13 h13.
                                        step (field "enrollment_complete" ms >>= λ v. flag_of v) _
                                          h13
                                          (λ enrollment_complete e14 h14.
                                            step (field "phase" ms >>= λ v. choice_of phase_names v)
                                              _ h14
                                              (λ phase e15 h15.
                                                step (field "last_error" ms) _ h15
                                                  (λ last_error e16 h16.
                                                    let (own, same) = made _ _ s h16 in
                                                    subst IsValid same (record {
                                                      own = own;
                                                      committed =
                                                          optional_field-read GenerationIsValid
                                                            parse_generation generation-read
                                                            (field "committed" ms) committed e1;
                                                      previous =
                                                          optional_field-read GenerationIsValid
                                                            parse_generation generation-read
                                                            (field "previous" ms) previous e2;
                                                      highwater =
                                                          optional_field-read BindingIsValid
                                                            parse_binding binding-read
                                                            (field "highwater" ms) highwater e3;
                                                      observed =
                                                          optional_field-read BindingIsValid
                                                            parse_binding binding-read
                                                            (field "observed" ms) observed e4;
                                                      failed =
                                                          optional_field-read BindingIsValid
                                                            parse_binding binding-read
                                                            (field "failed" ms) failed e5;
                                                      transaction =
                                                          optional_field-read TransactionIsValid
                                                            parse_transaction transaction-read
                                                            (field "transaction" ms) transaction e6;
                                                      cleanup =
                                                          optional_field-read (Every CleanupIsValid)
                                                            parse_queue queue-read
                                                            (field "cleanup" ms) cleanup e7;
                                                      rollback =
                                                          optional_field-read RollbackIsValid
                                                            parse_rollback rollback-read
                                                            (field "rollback" ms) rollback e8;
                                                    })))))))))))))))))
state-read v s h = absurd (ground arith)

module _ (loads : Bytes → Option Json) where
  -- Every state that is read from a text is well-formed: each of its parts has passed the checks of
  -- its constructor.
  pub deserialize_state-IsValid :
      (raw : Bytes) (s : State) → deserialize_state loads raw ≡ ok s → IsValid s
  unfolding deserialize_state
  deserialize_state-IsValid raw s h =
      found-read IsValid parse_state state-read (canonical_json_loads loads raw) s h
