-- ===== src/Database/Examples.antt =====
-- A usage record of src/database/InfluxDb.cc.
use one_fass.Base.{◌+◌, ℕ, ℤ, pos, ◌≡◌, true, refl, some, none, ◌*ℤ◌}
use one_fass.Text.{codes}
use one_fass.Text.Decimal.{dec}
use one_fass.StdMap.Entries.{entries}
use one_fass.Database.{
  usage_point, nanoseconds, InfluxDb, Exchange, Reply, write, init_db, request_text,
}

-- The usage of the periods 0 to 3.
abbrev usage_of : ℕ → ℤ
usage_of k = pos (100 + k)

point_test :
    usage_point
      (codes "h_cpu")
      5
      (entries 2 0 (λ k. record { usage = usage_of k; start_time = pos 0; stop_time = pos 200 }))
    ≡ codes "h_cpu,user=5 value0=100,value1=101 200000000000"
unfolding usage_point dec ◌*ℤ◌
point_test = refl

abbrev db : InfluxDb
db = record { endpoint = codes "localhost"; port = 8086; dbname = codes "fassdb" }

-- A server that answers every request with status 204.
abbrev no_content : Exchange
no_content request =
    some (record { good = true; http_version = codes "HTTP/1.0"; status_code = 204; rest = none })

write_test : write no_content db (codes "cpu") (codes "4") (codes "user=5") (pos 77) ≡ true
unfolding write one_fass.Database.query_db
write_test = refl
