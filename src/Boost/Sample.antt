-- ===== src/Boost/Sample.antt =====
-- A stand-in for boost over whole numbers.
use one_fass.Base.{◌^◌, ℤ}
use one_fass.Text.Split.{split-join, split}
use one_fass.Text.Reading.{read_int}
use one_fass.Boost.{Boost, IsBoost}

abbrev pub sample_boost : Boost ℤ
sample_boost = record {
  split = split;
  cast_int16 = read_int (2 ^ 15);
  cast_int64 = read_int (2 ^ 63);
  cast_float = read_int (2 ^ 63);
}

abbrev pub sample-IsBoost : IsBoost sample_boost
sample-IsBoost = record { split_joined = split-join }
