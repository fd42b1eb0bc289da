-- ===== src/Database.antt =====
-- src/database/InfluxDb.cc: what is written to the time series database, and when a query counts as
-- done. The exchange over the socket is a parameter.
pub mod Usage
mod Examples
use one_fass.Base.{
  List, ℕ, ℤ, pos, ◌*ℤ◌, ◌==ℤ◌, Bool, true, false, not, ◌&&◌, ◌||◌, Option, none, some, [], ◌∷◌,
  ◌++◌, ◌==◌, length, take, if◌then◌else◌,
}
use one_fass.Text.{Text, codes, eq_text}
use one_fass.Text.Decimal.{dec, dec_ℕ}
use one_fass.StdMap.{Map}
use one_fass.Floating.{Floating}
use one_fass.User

-- What is read of a response: the version and the status, whether the stream is in order behind the
-- status line, and the rest, which is `none` where reading it ends in an error.
pub record Reply : Type 0 where
  pub good : Bool
  pub http_version : Text
  pub status_code : ℕ
  pub rest : Option Text

-- From the text of a request to the response; `none` is an exception.
abbrev pub Exchange : Type 0
Exchange = Text → Option Reply

pub record InfluxDb : Type 0 where
  pub endpoint : Text
  pub port : ℕ
  pub dbname : Text

-- A database that is written to is named in the path, and the data are the body.
unfoldable pub request_text : InfluxDb → Text → Text → Text
request_text db method q =
    let post = eq_text method (codes "WRITE") in
    let my_query = if post then codes "/write?db=" ++ db.dbname else q in
    (if post then codes "POST" else method)
    ++ (codes " "
        ++ (my_query
            ++ (codes " HTTP/1.0\r\n"
                ++ (codes "Host: "
                    ++ (db.endpoint
                        ++ (codes "\r\nAccept: */*\r\n"
                            ++ ((if post
                                  then codes
                                      "Content-Type: application/x-www-form-urlencoded\r\nContent-Length: "
                                    ++ (dec_ℕ (length q) ++ codes "\r\n")
                                  else [])
                                ++ (codes "Connection: close\r\n\r\n"
                                    ++ (if post then q else [])))))))))

read_reply : Reply → Bool
read_reply reply =
    if not reply.good || not (eq_text (take 5 reply.http_version) (codes "HTTP/"))
    then false
    else if not (reply.status_code == 200) && not (reply.status_code == 204)
    then false
    else if reply.status_code == 204
    then true
    else received reply.rest
  where
    received : Option Text → Bool
    received none = false
    received (some content) = true

unfoldable pub query_db : Exchange → InfluxDb → Text → Text → Bool
unfolding read_reply
query_db exchange db method q = elim (exchange (request_text db method q)) [
  | none ↦ false
  | some reply ↦ read_reply reply
]

unfoldable pub ping_db : Exchange → InfluxDb → Bool
ping_db exchange db = query_db exchange db (codes "GET") (codes "/ping")

unfoldable pub create_db : Exchange → InfluxDb → Bool
create_db exchange db =
    query_db exchange db (codes "POST")
      (codes "/query?pretty=false&q=create%20database%20" ++ db.dbname)

-- That the database cannot be created is logged only.
unfoldable pub init_db : Exchange → InfluxDb → Bool
unfolding ping_db create_db
init_db exchange db = if ping_db exchange db then true else false

-- Timestamps are in nanoseconds.
abbrev pub nanoseconds : ℤ → Text
nanoseconds timestamp = codes " " ++ dec (timestamp *ℤ pos 1_000_000_000)

unfoldable pub share_point : Text → Text → Text → ℤ → ℤ → Text
share_point share user group ttl timestamp =
    codes "share,user="
    ++ (user
        ++ (codes ",group="
            ++ (group
                ++ (codes ",ttl="
                    ++ (dec ttl ++ (codes " value=" ++ (share ++ nanoseconds timestamp)))))))

-- `write_initial_shares`, with the share as the stream writes it.
unfoldable pub write_initial_shares :
    {F : Type 0} → (F → Text) → Exchange → InfluxDb → F → Text → Text → ℤ → ℤ → Bool
unfolding share_point
write_initial_shares f_stream exchange db share user group ttl timestamp =
    query_db exchange db (codes "WRITE") (share_point (f_stream share) user group ttl timestamp)

unfoldable pub point : Text → Text → Text → ℤ → Text
point key value tag timestamp =
    key
    ++ ((if eq_text tag [] then [] else codes "," ++ tag)
        ++ (codes " value=" ++ (value ++ nanoseconds timestamp)))

unfoldable pub write : Exchange → InfluxDb → Text → Text → Text → ℤ → Bool
unfolding point
write exchange db key value tag timestamp =
    query_db exchange db (codes "WRITE") (point key value tag timestamp)

-- The loop over the periods: the fields, and the time of the first one that has a time.
unfoldable pub usage_fields : Map ℕ User.Usage → ℤ → Text × ℤ
usage_fields [] timestamp = ([], timestamp)
usage_fields ((period, u) ∷ m) timestamp =
    let (fields, last) = usage_fields m (if timestamp ==ℤ pos 0 then u.stop_time else timestamp) in
    (
      (if period == 0 then [] else codes ",")
          ++ (codes "value" ++ (dec_ℕ period ++ (codes "=" ++ (dec u.usage ++ fields)))),
      last,
    )

unfoldable pub usage_point : Text → ℕ → Map ℕ User.Usage → Text
unfolding usage_fields
usage_point measurement uid usage =
    let (fields, timestamp) = usage_fields usage (pos 0) in
    measurement
    ++ (codes ",user=" ++ (dec_ℕ uid ++ (codes " " ++ (fields ++ nanoseconds timestamp))))

-- The two points of a user.
unfoldable pub usage_points : {F : Type 0} → User.User F → List Text
unfolding usage_point
usage_points user =
    usage_point (codes "h_cpu") user.user_id user.cpu_usage
    ∷ usage_point (codes "h_memory") user.user_id user.memory_usage
    ∷ []

-- Both are written, also when the first one fails.
unfoldable pub write_usage : {F : Type 0} → Exchange → InfluxDb → User.User F → Bool
unfolding usage_points
write_usage exchange db user = all_written (usage_points user)
  where
    all_written : List Text → Bool
    all_written [] = true
    all_written (q ∷ qs) = query_db exchange db (codes "WRITE") q && all_written qs
