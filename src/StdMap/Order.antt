-- ===== src/StdMap/Order.antt =====
-- Two entries with different keys can be inserted in either order. Keys are compared by `<` on integers.
use one_fass.Base.{
  ◌∙◌, ℤ, none, [], ◌∷◌, ◌≡◌, ◌≢◌, refl, sym, ap, arith, ltb_ℤ, inl, inr, Option-cases,
}
use one_fass.StdMap.Laws.{insert_present}
use one_fass.StdMap.{Map, find, place, insert}

module _ {V : Type 0} where
  pub find-place_other :
      (k j : ℤ) (v : V) (m : Map ℤ V) → k ≢ j → find ltb_ℤ k (place ltb_ℤ j v m) ≡ find ltb_ℤ k m
  unfolding find place
  find-place_other k j v [] h = ground arith
  find-place_other k j v ((i, w) ∷ m) h = ground (arith, find-place_other k j v m h)

  place_comm :
      (k j : ℤ) (v w : V) (m : Map ℤ V)
      → k ≢ j
      → place ltb_ℤ k v (place ltb_ℤ j w m) ≡ place ltb_ℤ j w (place ltb_ℤ k v m)
  unfolding place
  place_comm k j v w [] h = ground arith
  place_comm k j v w ((i, u) ∷ m) h = ground (arith, place_comm k j v w m h)

  pub insert_absent :
      (k : ℤ) (v : V) (m : Map ℤ V) → find ltb_ℤ k m ≡ none → insert ltb_ℤ k v m ≡ place ltb_ℤ k v m
  unfolding insert
  insert_absent k v m e = rw (e, insert) refl

  pub insert_comm :
      (k j : ℤ) (v w : V) (m : Map ℤ V)
      → k ≢ j
      → insert ltb_ℤ k v (insert ltb_ℤ j w m) ≡ insert ltb_ℤ j w (insert ltb_ℤ k v m)
  insert_comm k j v w m h =
      let other = find-place_other k j w m h in
      let another = find-place_other j k v m (λ e. h (sym e)) in
      elim (Option-cases (find ltb_ℤ k m)) [
        | inl e ↦ elim (Option-cases (find ltb_ℤ j m)) [
          | inl d ↦
              ap (insert ltb_ℤ k v) (insert_absent j w m d)
              ∙ insert_absent k v (place ltb_ℤ j w m) (other ∙ e)
              ∙ place_comm k j v w m h
              ∙ sym (insert_absent j w (place ltb_ℤ k v m) (another ∙ d))
              ∙ ap (insert ltb_ℤ j w) (sym (insert_absent k v m e))
          | inr (u, d) ↦
              ap (insert ltb_ℤ k v) (insert_present ltb_ℤ j w u m d)
              ∙ insert_absent k v m e
              ∙ sym (insert_present ltb_ℤ j w u (place ltb_ℤ k v m) (another ∙ d))
              ∙ ap (insert ltb_ℤ j w) (sym (insert_absent k v m e))
        ]
        | inr (u, e) ↦ elim (Option-cases (find ltb_ℤ j m)) [
          | inl d ↦
              ap (insert ltb_ℤ k v) (insert_absent j w m d)
              ∙ insert_present ltb_ℤ k v u (place ltb_ℤ j w m) (other ∙ e)
              ∙ sym (insert_absent j w m d)
              ∙ ap (insert ltb_ℤ j w) (sym (insert_present ltb_ℤ k v u m e))
          | inr (t, d) ↦
              ap (insert ltb_ℤ k v) (insert_present ltb_ℤ j w t m d)
              ∙ insert_present ltb_ℤ k v u m e
              ∙ sym (insert_present ltb_ℤ j w t m d)
              ∙ ap (insert ltb_ℤ j w) (sym (insert_present ltb_ℤ k v u m e))
        ]
      ]
