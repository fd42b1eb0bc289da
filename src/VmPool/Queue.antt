-- ===== src/VmPool/Queue.antt =====
-- The text of the queue that `make_queue` writes.
use mathlib.Core.List.{append_assoc}
use one_fass.Base.{ℕ, ◌+◌, ◌-◌, ◌<◌, ◌%◌, none, some, ◌++◌, ◌≡◌, arith, length, length-append}
use mathlib.Core.Path.{subst}
use one_fass.Text.{Text, codes, find?, size_mod}
use one_fass.Text.Find.{insert_behind, IsBefore, find?_first, find?_somewhere, erase_at, insert_at}
use one_fass.Outcome.{done}
use one_fass.Floating.{Floating}
use one_fass.Xml.{LibXml}
use one_fass.VmPool.{prio_node, set_priority}

-- The whole old element: its tags and what is between them.
abbrev pub old_node : Text → Text
old_node v = codes "<USER_PRIORITY>" ++ (v ++ codes "</USER_PRIORITY>")

priority_place :
    (before v behind : Text)
    → (i : ℕ) × (find? (codes "USER_PRIORITY") (
          (before ++ codes "<")
          ++ (codes "USER_PRIORITY" ++ (codes ">" ++ (v ++ (codes "</USER_PRIORITY>" ++ behind)))))
        ≡ some i)
priority_place before v behind =
    find?_somewhere (codes "USER_PRIORITY") (before ++ codes "<")
      (codes ">" ++ (v ++ (codes "</USER_PRIORITY>" ++ behind)))

module _ (f : Floating) (x : LibXml) where
  -- A node with a priority, shorter than 2 ^ 64 bytes: if the first opening tag and the first
  -- closing tag in it are those of the element, the element is replaced by one with the new
  -- priority, and the text before and behind it stays.
  pub set_priority_replaces :
      (prio : f.F) (before v behind : Text)
      → length (before ++ (old_node v ++ behind)) < size_mod
      → IsBefore
          (codes "<USER_PRIORITY>")
          before
          (codes "<USER_PRIORITY>" ++ (v ++ (codes "</USER_PRIORITY>" ++ behind)))
      → IsBefore
          (codes "</USER_PRIORITY>")
          (before ++ (codes "<USER_PRIORITY>" ++ v))
          (codes "</USER_PRIORITY>" ++ behind)
      → set_priority f x prio (before ++ (old_node v ++ behind))
        ≡ done (before ++ (prio_node f x prio ++ behind))
  unfolding set_priority
  set_priority_replaces prio before v behind fits o c =
      rw (named, opens, closes, set_priority)
        (rw
          (cut, erase_at before (old_node v) behind, insert_at before (prio_node f x prio) behind))
    where
      node : Text
      node = before ++ (old_node v ++ behind)

      named : find? (codes "USER_PRIORITY") node ≡ some (priority_place before v behind).0
      named =
          subst (λ n. find? (codes "USER_PRIORITY") n ≡ some (priority_place before v behind).0)
            (simp append_assoc) (priority_place before v behind).1

      opens : find? (codes "<USER_PRIORITY>") node ≡ some (length before)
      opens =
          subst (λ n. find? (codes "<USER_PRIORITY>") n ≡ some (length before)) (simp append_assoc)
            (find?_first (codes "<USER_PRIORITY>") before
              (v ++ (codes "</USER_PRIORITY>" ++ behind)) o)

      closes :
          find? (codes "</USER_PRIORITY>") node
          ≡ some (length (before ++ (codes "<USER_PRIORITY>" ++ v)))
      closes =
          subst
            (λ n.
              find? (codes "</USER_PRIORITY>") n
              ≡ some (length (before ++ (codes "<USER_PRIORITY>" ++ v))))
            (simp append_assoc)
            (find?_first (codes "</USER_PRIORITY>") (before ++ (codes "<USER_PRIORITY>" ++ v))
              behind c)

      cut :
          (length (before ++ (codes "<USER_PRIORITY>" ++ v)) + 16 + size_mod - length before)
            % size_mod
          ≡ length (old_node v)
      cut = omega (
        arith,
        length-append before (codes "<USER_PRIORITY>" ++ v),
        length-append before (old_node v ++ behind),
        length-append v (codes "</USER_PRIORITY>"),
        length-append (old_node v) behind,
      )

  -- A node, shorter than 2 ^ 64 bytes, in which USER_PRIORITY does not occur: the element with the
  -- priority is put behind the first `<USER_TEMPLATE>`, and the rest stays.
  set_priority_inserts :
      (prio : f.F) (before behind : Text)
      → length (before ++ (codes "<USER_TEMPLATE>" ++ behind)) < size_mod
      → find? (codes "USER_PRIORITY") (before ++ (codes "<USER_TEMPLATE>" ++ behind)) ≡ none
      → IsBefore (codes "<USER_TEMPLATE>") before (codes "<USER_TEMPLATE>" ++ behind)
      → set_priority f x prio (before ++ (codes "<USER_TEMPLATE>" ++ behind))
        ≡ done (before ++ (codes "<USER_TEMPLATE>" ++ (prio_node f x prio ++ behind)))
  unfolding set_priority
  set_priority_inserts prio before behind fits absent first =
      rw (absent, find?_first (codes "<USER_TEMPLATE>") before behind first, set_priority)
        (rw (here, insert_behind before (prio_node f x prio) (codes "<USER_TEMPLATE>") behind))
    where
      here : (length before + 15) % size_mod ≡ length before + 15
      here = omega (arith, length-append before (codes "<USER_TEMPLATE>" ++ behind))
