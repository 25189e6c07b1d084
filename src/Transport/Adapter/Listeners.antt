-- ===== src/Transport/Adapter/Listeners.antt =====
-- The listeners of the adapter: what is registered is what is unregistered.
use dmsfwk.Prelude.{
  ℕ, ◌≡◌, ◌≢◌, refl, ap, ◌∙◌, inl, inr, Bool, true, false, Option, none, some, List, [], ◌∷◌, ◌++◌,
  lookup, insert, erase-insert, insert-insert, Ascending, insert_stored, lookup-insert_self,
  Option-cases, arith,
}
use dmsfwk.Transport.Adapter.{
  Adapter, contains, remove_first, register_listener, unregister_listener,
}

contains-append : (l : ℕ) (ls : List ℕ) → contains l (ls ++ l ∷ []) ≡ true
unfolding contains
contains-append l [] = ground arith
contains-append l (x ∷ ls) = ground (arith, contains-append l ls)

contains_nil : (l : ℕ) → contains l [] ≡ false
unfolding contains
contains_nil l = refl

remove_first-append :
    (l : ℕ) (ls : List ℕ) → contains l ls ≡ false → remove_first l (ls ++ l ∷ []) ≡ ls
unfolding contains remove_first
remove_first-append l [] e = ground arith
remove_first-append l (x ∷ ls) e = ground (arith, remove_first-append l ls)

-- Whether a listener is registered for a type.
abbrev pub is_registered : Option (List ℕ) → ℕ → Bool
is_registered none l = false
is_registered (some ls) l = contains l ls

module _ (a : Adapter) (type l : ℕ) where
  register_first :
      lookup type a.listeners ≡ none
      → register_listener a type (some l)
        ≡ record a { listeners = insert type (l ∷ []) a.listeners }
  unfolding register_listener
  register_first e = rw (e, register_listener)

  unregister_first :
      lookup type a.listeners ≡ none
      → unregister_listener
          (record a { listeners = insert type (l ∷ []) a.listeners })
          type
          (some l)
        ≡ a
  unfolding unregister_listener
  unregister_first e = rw (
    lookup-insert_self type (l ∷ []) a.listeners,
    contains-append l [],
    remove_first-append l [] (contains_nil l),
    erase-insert type (l ∷ []) a.listeners e,
    unregister_listener,
  )

  module _ (x : ℕ) (ls : List ℕ) (e : lookup type a.listeners ≡ some (x ∷ ls))
      (new : contains l (x ∷ ls) ≡ false) where
    register_more :
        register_listener a type (some l)
        ≡ record a { listeners = insert type (x ∷ ls ++ l ∷ []) a.listeners }
    unfolding register_listener
    register_more = rw (e, new, register_listener)

    unregister_more :
        Ascending 0 a.listeners
        → unregister_listener
            (record a { listeners = insert type (x ∷ ls ++ l ∷ []) a.listeners })
            type
            (some l)
          ≡ a
    unfolding unregister_listener
    unregister_more h = rw (
      lookup-insert_self type (x ∷ ls ++ l ∷ []) a.listeners,
      contains-append l (x ∷ ls),
      remove_first-append l (x ∷ ls) new,
      insert-insert type (x ∷ ls) (x ∷ ls ++ l ∷ []) a.listeners,
      (insert_stored 0 type (x ∷ ls) a.listeners h e).1,
      unregister_listener,
    )

-- Where the listeners are ordered by their types and the list of a type, if it has one, is not empty, a
-- listener that is registered for the type, and was not before, and then unregistered leaves the
-- adapter as it was.
pub unregister_listener-register_listener :
    (a : Adapter) (type l : ℕ)
    → Ascending 0 a.listeners
    → lookup type a.listeners ≢ some []
    → is_registered (lookup type a.listeners) l ≡ false
    → unregister_listener (register_listener a type (some l)) type (some l) ≡ a
unregister_listener-register_listener a type l h some_there new =
    elim (Option-cases (lookup type a.listeners)) [
      | inl e ↦
          ap (λ b. unregister_listener b type (some l)) (register_first a type l e)
          ∙ unregister_first a type l e
      | inr ([], e) ↦ absurd (some_there e)
      | inr (x ∷ ls, e) ↦
          let new' : contains l (x ∷ ls) ≡ false = rw e at new in
          ap (λ b. unregister_listener b type (some l)) (register_more a type l x ls e new')
          ∙ unregister_more a type l x ls e new' h
    ]
