-- ===== src/Config/Examples.antt =====
-- A shares.conf with two sections, read by src/config/SharesConfigurator.cc.
use one_fass.Base.{true, false, Option, none, some, List, [], ◌∷◌, ◌≡◌, refl, if◌then◌else◌}
use one_fass.Text.{Text, codes, eq_text}
use one_fass.Outcome.{done}
use one_fass.Config.{PropertyTree, load_shares, print_shares}
use one_fass.Config.Shares.{Section, entry_of}

abbrev ann : Section
ann = record {
  user = codes "ann";
  uid = codes "5";
  gid = codes "1";
  share = codes "40";
  ttl = codes "600";
}

abbrev bob : Section
bob = record {
  user = codes "bob";
  uid = codes "6";
  gid = codes "1";
  share = codes "60";
  ttl = codes "900";
}

abbrev lookup : List (Text × Text) → Text → Option Text
lookup [] path = none
lookup ((p, v) ∷ m) path = let rest = lookup m path in if eq_text p path then some v else rest

abbrev tree : PropertyTree
tree = record {
  sections = codes "ann" ∷ codes "bob" ∷ [];
  get = lookup (
      (codes "ann.uid", codes "5")
      ∷ (codes "ann.gid", codes "1")
      ∷ (codes "ann.share", codes "40")
      ∷ (codes "ann.ttl", codes "600")
      ∷ (codes "bob.uid", codes "6")
      ∷ (codes "bob.gid", codes "1")
      ∷ (codes "bob.share", codes "60")
      ∷ (codes "bob.ttl", codes "900")
      ∷ []);
}

entry_test : entry_of bob ≡ codes "bob:6:1:60:900"
unfolding one_fass.Text.Split.join
entry_test = refl

-- A missing value ends the reading; the entry before it stays.
missing_test :
    load_shares true
      (some (record tree {
        get = lookup (
            (codes "ann.uid", codes "5")
            ∷ (codes "ann.gid", codes "1")
            ∷ (codes "ann.share", codes "40")
            ∷ (codes "ann.ttl", codes "600")
            ∷ (codes "bob.uid", codes "6")
            ∷ []);
      }))
      []
    ≡ done (false, codes "ann:5:1:40:600" ∷ [])
unfolding load_shares one_fass.Text.erase
missing_test = refl

print_test :
    print_shares (codes "ann:5:1:40:600" ∷ [])
    ≡ codes "Reading initial shares...\n(username:uid:gid:share:ttl)\n> ann:5:1:40:600\n"
print_test = refl
