-- ===== src/AcctPool/SetUp/Known.antt =====
-- What `AcctPool::set_up` in src/xml/AcctPool.cc leaves in the pool.
use one_fass.Base.{
  ◌∙◌, true, arith, sym, ap, ◌≢◌, ℤ, pos, negsuc, ltb_ℤ, ◌==ℤ◌, Option, none, some, List, [], ◌∷◌,
  ◌≡◌, refl, ◌⊎◌, inl, inr, All, Among, Bool-cases,
}
use one_fass.Outcome.{or_throw-eq-done, ◌>>=◌, done, >>=-eq-done, done-injective, or_throw, element}
use one_fass.StdMap.{IsSorted, insert, find, same}
use one_fass.StdMap.Laws.{insert-All, insert-IsSorted}
use one_fass.Floating.{Floating}
use one_fass.Xml.{LibXml, get_nodes}
use one_fass.Text.{Text}
use one_fass.StdMap.Presence.{Has, Has-insert, Has-insert_self}
use mathlib.Core.Path.{subst}
use mathlib.Core.Option.{some-injective}
use one_fass.Client.{Value, Transport, XmlRpcClient, as_array, as_boolean, as_string}
use one_fass.AcctPool.{AcctObject}
use one_fass.AcctPool.SetUp.{
  Entries, make_list, add_nodes, history_search, make_objects, load_acct, read_entries, set_up,
}

module _ (f : Floating) (x : LibXml) (uids : List ℤ) where
  abbrev nodes_of : x.Doc → ℤ → List x.Node
  nodes_of doc uid = get_nodes x doc (history_search f x uid)

  -- The user is one of those that were asked for, and the list is the reading of the nodes that the
  -- search for the user finds.
  abbrev pub IsRead : x.Doc → ℤ × List (AcctObject f.F) → Type 0
  IsRead doc e = Among e.0 uids × (make_list f x (nodes_of doc e.0) ≡ done (some e.1))

  pub record AreRead (doc : x.Doc) (objects : Entries f x) : Type 0 where
    pub sorted : IsSorted ltb_ℤ objects
    pub read : All (IsRead doc) objects

  -- Each of the users whose nodes are there, and are all entries, has the list that is read from them.
  abbrev pub AllFound : x.Doc → List ℤ → Entries f x → Type 0
  AllFound doc us objects =
      (uid : ℤ)
      → Among uid us
      → (l : List (AcctObject f.F)) → nodes_of doc uid ≢ []
      → make_list f x (nodes_of doc uid) ≡ done (some l)
      → find ltb_ℤ uid objects ≡ some l

  keep-AreRead :
      (doc : x.Doc) (uid : ℤ) (objects : Entries f x) (l : Option (List (AcctObject f.F)))
      → Among uid uids
      → make_list f x (nodes_of doc uid) ≡ done l
      → AreRead doc objects
      → AreRead doc (elim l [ none ↦ objects | some entries ↦ insert ltb_ℤ uid entries objects ])
  keep-AreRead doc uid objects none m e v = v
  keep-AreRead doc uid objects (some entries) m e v = record {
    sorted = insert-IsSorted ltb_ℤ uid entries objects v.sorted;
    read = insert-All ltb_ℤ (IsRead doc) uid entries objects (m, e) v.read;
  }

  add_nodes-AreRead :
      (doc : x.Doc) (uid : ℤ) (nodes : List x.Node) (objects : Entries f x) {after : Entries f x}
      → Among uid uids
      → nodes ≡ nodes_of doc uid
      → AreRead doc objects
      → add_nodes f x uid nodes objects ≡ done after
      → AreRead doc after
  unfolding add_nodes
  add_nodes-AreRead doc uid [] objects m same v e = rw (← done-injective _ _ e) v
  add_nodes-AreRead doc uid (n ∷ ns) objects m same v e =
      let (l, made, added) = >>=-eq-done (make_list f x (n ∷ ns)) _ e in
      rw (← done-injective _ _ added) (keep-AreRead doc uid objects l m (rw (← same) made) v)

  make_objects-AreRead :
      (doc : x.Doc) (us : List ℤ) (objects : Entries f x) {after : Entries f x}
      → ((uid : ℤ) → Among uid us → Among uid uids)
      → AreRead doc objects
      → make_objects f x doc us objects ≡ done after
      → AreRead doc after
  unfolding make_objects
  make_objects-AreRead doc [] objects sub v e = rw (← done-injective _ _ e) v
  make_objects-AreRead doc (uid ∷ us) objects sub v e =
      let (more, one, all) = >>=-eq-done (add_nodes f x uid (nodes_of doc uid) objects) _ e in
      make_objects-AreRead doc us more (λ u m. sub u (inr m))
        (add_nodes-AreRead doc uid (nodes_of doc uid) objects (sub uid (inl refl)) refl v one) all

  -- The document is the second value of a result of a call, whose first value is true.
  abbrev pub IsResult : Option Value → x.Doc → Type 0
  IsResult result doc =
      (values : List Value) × (second : Value) × (text : Text) × (as_array result ≡ done values)
      × ((element 0 values >>= as_boolean) ≡ done true)
      × (element 1 values ≡ done second)
      × (as_string second ≡ done text)
      × (x.read_memory text ≡ some doc)

  -- The entries and a return code that belong together, after a call with a return code and a result.
  abbrev pub IsKnown : ℤ × Option Value → Entries f x × ℤ → Type 0
  IsKnown (called, result) (objects, rc) =
      ((rc ≡ pos 0)
        × (called ≡ pos 0)
        × (doc : x.Doc) × IsResult result doc
        × AreRead doc objects
        × AllFound doc uids objects)
      ⊎ ((rc ≡ negsuc 0) × (objects ≡ []))

  find-IsRead :
      (doc : x.Doc) (uid : ℤ) (objects : Entries f x) (v : List (AcctObject f.F))
      → All (IsRead doc) objects
      → find ltb_ℤ uid objects ≡ some v
      → make_list f x (nodes_of doc uid) ≡ done (some v)
  unfolding find
  find-IsRead doc uid [] v h e = cc
  find-IsRead doc uid ((j, w) ∷ objects) v (r, h) e = elim (Bool-cases (same ltb_ℤ uid j)) [
    | inl p ↦
        let k : uid ≡ j = ground (arith, p) in
        let q : w ≡ v = some-injective _ _ (rw p at e) in rw (k, ← q) (r.1)
    | inr p ↦ find-IsRead doc uid objects v h (rw p at e)
  ]

  add_nodes-Has :
      (uid k : ℤ) (nodes : List x.Node) (objects : Entries f x) {after : Entries f x}
      → Has ltb_ℤ k objects
      → add_nodes f x uid nodes objects ≡ done after
      → Has ltb_ℤ k after
  unfolding add_nodes
  add_nodes-Has uid k [] objects h e = rw (← done-injective _ _ e) h
  add_nodes-Has uid k (n ∷ ns) objects h e =
      let (l, made, added) = >>=-eq-done (make_list f x (n ∷ ns)) _ e in
      rw (← done-injective _ _ added) (kept l)
    where
      kept :
          (l : Option (List (AcctObject f.F)))
          → Has ltb_ℤ k (elim l [ none ↦ objects | some v ↦ insert ltb_ℤ uid v objects ])
      kept none = h
      kept (some v) = Has-insert ltb_ℤ k uid v objects h

  make_objects-Has :
      (doc : x.Doc) (us : List ℤ) (k : ℤ) (objects : Entries f x) {after : Entries f x}
      → Has ltb_ℤ k objects
      → make_objects f x doc us objects ≡ done after
      → Has ltb_ℤ k after
  unfolding make_objects
  make_objects-Has doc [] k objects h e = rw (← done-injective _ _ e) h
  make_objects-Has doc (uid ∷ us) k objects h e =
      let (more, one, all) = >>=-eq-done (add_nodes f x uid (nodes_of doc uid) objects) _ e in
      make_objects-Has doc us k more (add_nodes-Has uid k (nodes_of doc uid) objects h one) all

  add_nodes-Has_self :
      (uid : ℤ) (nodes : List x.Node) (objects : Entries f x) (l : List (AcctObject f.F))
      {after : Entries f x}
      → nodes ≢ []
      → make_list f x nodes ≡ done (some l)
      → add_nodes f x uid nodes objects ≡ done after
      → Has ltb_ℤ uid after
  unfolding add_nodes
  add_nodes-Has_self uid [] objects l some_nodes made e = absurd (some_nodes refl)
  add_nodes-Has_self uid (n ∷ ns) objects l some_nodes made e =
      rw (← done-injective _ _ (rw made at e))
        (Has-insert_self ltb_ℤ (λ j. ground arith) uid l objects)

  make_objects-Has_self :
      (doc : x.Doc) (us : List ℤ) (uid : ℤ) (objects : Entries f x) (l : List (AcctObject f.F))
      {after : Entries f x}
      → Among uid us
      → nodes_of doc uid ≢ []
      → make_list f x (nodes_of doc uid) ≡ done (some l)
      → make_objects f x doc us objects ≡ done after
      → Has ltb_ℤ uid after
  unfolding make_objects
  make_objects-Has_self doc [] uid objects l m some_nodes made e = absurd m
  make_objects-Has_self doc (u ∷ us) uid objects l m some_nodes made e =
      let (more, one, all) = >>=-eq-done (add_nodes f x u (nodes_of doc u) objects) _ e in
      elim m [
        | inl same ↦
            let here =
              subst (λ u. add_nodes f x u (nodes_of doc u) objects ≡ done more) (sym same) one in
            make_objects-Has doc us uid more
              (add_nodes-Has_self uid (nodes_of doc uid) objects l some_nodes made here) all
        | inr m ↦ make_objects-Has_self doc us uid more l m some_nodes made all
      ]

  read_entries-IsKnown :
      (loaded : ℤ × Option Value) (values : List Value) {r : Entries f x × ℤ}
      → loaded.0 ≡ pos 0
      → as_array loaded.1 ≡ done values
      → read_entries f x uids values ≡ done r
      → IsKnown loaded r
  unfolding read_entries
  read_entries-IsKnown loaded values zero array e =
      let (first, e1, r1) = >>=-eq-done (element 0 values) _ e in
      let (success, e2, r2) = >>=-eq-done (as_boolean first) _ r1 in
      let (second, e3, r3) = >>=-eq-done (element 1 values) _ r2 in
      elim (Bool-cases success) [
        | inr refused ↦
            let (message, e4, r4) = >>=-eq-done (as_string second) _ (rw refused at r3) in
            rw (← done-injective _ _ r4) (inr (refl, refl))
        | inl answered ↦
            let (acctlist, e4, r4) = >>=-eq-done (as_string second) _ (rw answered at r3) in
            let (doc, e5, r5) = >>=-eq-done (or_throw (x.read_memory acctlist)) _ r4 in
            let (objects, e6, r6) = >>=-eq-done (make_objects f x doc uids []) _ r5 in
            let read =
              make_objects-AreRead doc uids [] (λ u m. m) (record { sorted = tt; read = tt }) e6 in
            let first_true = ap (λ o. o >>= as_boolean) e1 ∙ e2 ∙ ap done answered in
            rw (← done-injective _ _ r6) (
              inl (
                refl,
                zero,
                doc,
                (values, second, acctlist, array, first_true, e3, e4, or_throw-eq-done _ e5),
                read,
                λ uid m l some_nodes made.
                    let (v, at) = make_objects-Has_self doc uids uid [] l m some_nodes made e6 in
                    let same = sym (find-IsRead doc uid objects v read.read at) ∙ made in
                    at ∙ done-injective _ _ same,
              ))
      ]

  -- When `set_up` returns 0, the call has returned a result, and the pool holds, in the order of the user
  -- ids, lists of known users only, each the reading of all the nodes that the search for that user
  -- finds in the document of this result; and each known user with nodes there that are all entries has
  -- such a list. Else it returns -1, and the pool is empty.
  pub set_up-IsKnown :
      (send : Transport) (client : XmlRpcClient) (time_start : ℤ) {r : Entries f x × ℤ}
      → set_up f x send client uids time_start ≡ done r
      → IsKnown (load_acct f x send client time_start) r
  unfolding set_up
  set_up-IsKnown send client time_start e =
      elim (Bool-cases ((load_acct f x send client time_start).0 ==ℤ pos 0)) [
        | inr failed ↦ rw (← done-injective _ _ (rw failed at e)) (inr (refl, refl))
        | inl loaded ↦
            let result = (load_acct f x send client time_start).1 in
            let (values, e1, r1) = >>=-eq-done (as_array result) _ (rw loaded at e) in
            let zero : (load_acct f x send client time_start).0 ≡ pos 0 = ground (arith, loaded) in
            read_entries-IsKnown (load_acct f x send client time_start) values zero e1 r1
      ]
