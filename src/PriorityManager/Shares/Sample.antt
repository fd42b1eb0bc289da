-- ===== src/PriorityManager/Shares/Sample.antt =====
-- Two accounts, and the tree of a shares.conf that has them.
use one_fass.Base.{ℤ, pos, Option, none, some, List, [], ◌∷◌, refl, All, arith, if◌then◌else◌}
use one_fass.Text.{Text, codes, eq_text}
use one_fass.Text.Reading.{read_int}
use one_fass.Floating.{whole}
use one_fass.Boost.Sample.{sample_boost}
use one_fass.Config.{PropertyTree}
use one_fass.Config.Shares.{HasSection}
use one_fass.PriorityManager.Shares.{Account, IsReadable}

abbrev pub ann_account : Account ℤ
ann_account = record {
  section = record {
    user = codes "ann";
    uid = codes "5";
    gid = codes "1";
    share = codes "40";
    ttl = codes "600";
  };
  uid = pos 5;
  gid = pos 1;
  weight = pos 40;
  share = pos 40;
  ttl = pos 600;
}

abbrev pub bob_account : Account ℤ
bob_account = record {
  section = record {
    user = codes "bob";
    uid = codes "6";
    gid = codes "1";
    share = codes "60";
    ttl = codes "900";
  };
  uid = pos 6;
  gid = pos 1;
  weight = pos 60;
  share = pos 60;
  ttl = pos 900;
}

pub ann-IsReadable : IsReadable whole sample_boost ann_account
unfolding read_int
ann-IsReadable = record {
  plain = ground arith;
  uid_read = refl;
  gid_read = refl;
  weight_read = refl;
  share_read = refl;
  ttl_read = refl;
}

pub bob-IsReadable : IsReadable whole sample_boost bob_account
unfolding read_int
bob-IsReadable = record {
  plain = ground arith;
  uid_read = refl;
  gid_read = refl;
  weight_read = refl;
  share_read = refl;
  ttl_read = refl;
}

abbrev lookup : List (Text × Text) → Text → Option Text
lookup [] path = none
lookup ((p, v) ∷ m) path = let rest = lookup m path in if eq_text p path then some v else rest

abbrev pub tree : PropertyTree
tree = record {
  sections = codes "ann" ∷ codes "bob" ∷ [];
  get = lookup (
      (codes "ann.uid", codes "5")
      ∷ (codes "ann.gid", codes "1")
      ∷ (codes "ann.share", codes "40")
      ∷ (codes "ann.ttl", codes "600")
      ∷ (codes "bob.uid", codes "6")
      ∷ (codes "bob.gid", codes "1")
      ∷ (codes "bob.share", codes "60")
      ∷ (codes "bob.ttl", codes "900")
      ∷ []);
}

pub tree_has : All (HasSection tree) (ann_account.section ∷ bob_account.section ∷ [])
tree_has = ((refl, refl, refl, refl), ((refl, refl, refl, refl), tt))
