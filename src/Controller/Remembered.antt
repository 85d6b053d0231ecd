-- ===== src/Controller/Remembered.antt =====
-- The window of `_remember`.
use golden_retriever.Prelude.{
  subst, sym, drop, Distinct, length-drop, ℕ, suc, zero, ◌-◌, ◌≤◌, String, ◌≡◌, refl, ap, ◌∙◌,
  false, none, some, List, [], ◌∷◌, take, length, elem, arith,
}
use golden_retriever.Dict.{Dict, get, put, remove, size, keys, keys_of, has, insert, erase}
use golden_retriever.Dict.Laws.{
  is_some, get-put, get-remove, has-get, put-Unique, Unique, size-put_new, erase_absent,
}
use golden_retriever.Models.Operations.{CommandResult}
use golden_retriever.Controller.State.{forget, remember_in}

module _ {ℓ} {V : Type ℓ} where
  get-forget :
      (j : String) (ks : List String) (d : Dict V)
      → elem j ks ≡ false
      → get j (forget ks d) ≡ get j d
  unfolding forget elem
  get-forget j [] d h = refl
  get-forget j (k ∷ ks) d h = ground (arith, get-forget j ks (remove k d), get-remove j k d)

  -- The first keys after an insertion of a new key are old ones.
  elem-take-insert :
      (j : String) (v : V) (n : ℕ) (l : List (String × V))
      → elem j (keys_of l) ≡ false
      → n ≤ length l
      → elem j (take n (keys_of (insert j v l))) ≡ false
  unfolding insert elem
  elem-take-insert j v zero l h b = refl
  elem-take-insert j v (suc n) [] h b = ground arith
  elem-take-insert j v (suc n) ((k, w) ∷ l) h b = ground (arith, elem-take-insert j v n l)

  -- A key that is new, and whose window is not empty, is kept.
  pub get-forget_oldest :
      (j : String) (v : V) (n : ℕ) (d : Dict V)
      → get j d ≡ none
      → n ≤ size d
      → get j (forget (take n (keys (put j v d))) (put j v d)) ≡ some v
  unfolding put size has
  get-forget_oldest j v n d h b =
      get-forget j (take n (keys (put j v d))) (put j v d)
        (elem-take-insert j v n d.entries absent b)
      ∙ found
    where
      absent : elem j (keys d) ≡ false
      absent = has-get j d ∙ ap is_some h

      found : get j (put j v d) ≡ some v
      found = ground (arith, get-put j j v d)

  -- Without repetition, what is forgotten is exactly the oldest entries.
  forget_oldest :
      (n : ℕ) (l : List (String × V))
      → Distinct (keys_of l)
      → forget (take n (keys_of l)) (record { entries = l }) ≡ record { entries = drop n l }
  unfolding forget remove erase
  forget_oldest zero l u = refl
  forget_oldest (suc n) [] u = refl
  forget_oldest (suc n) ((k, v) ∷ l) u = ground (arith, erase_absent k l, forget_oldest n l)

  Distinct-drop :
      (n : ℕ) (l : List (String × V)) → Distinct (keys_of l) → Distinct (keys_of (drop n l))
  Distinct-drop zero l u = u
  Distinct-drop (suc n) [] u = u
  Distinct-drop (suc n) ((k, v) ∷ l) u = Distinct-drop n l u.1

-- The remembered results are without repetition and no more than the window, which is positive.
abbrev pub Bounded : ℕ → Dict CommandResult → Type 0
Bounded window d = Unique d × (size d ≤ window)

pub remember_in-Bounded :
    (window : ℕ) (result : CommandResult) (d : Dict CommandResult)
    → Unique d
    → Bounded window (remember_in window result d)
unfolding remember_in size
remember_in-Bounded window result d u =
    let grown = put result.command_id result d in
    subst (Bounded window)
      (sym (
        forget_oldest (size grown - window) grown.entries
          (put-Unique result.command_id result d u)))
      (
        Distinct-drop (size grown - window) grown.entries (put-Unique result.command_id result d u),
        omega (arith, length-drop (size grown - window) grown.entries),
      )

pub get-remember_in :
    (window : ℕ) (result : CommandResult) (d : Dict CommandResult)
    → 1 ≤ window
    → get result.command_id d ≡ none
    → get result.command_id (remember_in window result d) ≡ some result
unfolding remember_in
get-remember_in window result d b h =
    get-forget_oldest result.command_id result (size (put result.command_id result d) - window) d h
      (ground (arith, size-put_new result.command_id result d, has-get result.command_id d))
