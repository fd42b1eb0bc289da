-- ===== src/Rpc/Examples.antt =====
-- Calls of the server of src/rpcm, answered by itself and by the proxy.
use one_fass.Base.{
  ℕ, pos, false, List, [], ◌∷◌, ◌++◌, Option, none, some, ◌≡◌, ◌≢◌, refl, inl, arith,
}
use one_fass.Text.{Text, codes}
use one_fass.Outcome.{throws, done, faults}
use one_fass.Client.{
  Value, int, boolean, string, array, of_list, Transport, succeeded, unfinished, call_async,
  as_array,
}
use one_fass.Rpc.{RequestAttributes, log_format, log_directive, success_response}
use one_fass.Rpc.Format.{Item, plain, directive, print, meaning, log_format-print}
use one_fass.Rpc.Methods.{Server, no_hidden, new_attributes}
use one_fass.Rpc.Proxy.{execute_proxy, forward}
use one_fass.Rpc.Answers.{answer, execute_proxy-unreachable, execute_proxy-refused}
use one_fass.Rpc.Relay.{Relayed, execute_proxy-Relayed}

abbrev server : Server
server = record {
  version = codes "1.3";
  queue = codes "<VM_POOL></VM_POOL>";
  call_log_format = codes "Req:%i UID:%u %m invoked %l";
  uid = pos 0;
  gid = pos 0;
  user_name = some (codes "root");
  req_id = pos 4711;
}

abbrev silent : Transport
silent method params = unfinished

abbrev refusing : Transport
refusing method params =
    succeeded (array (of_list (boolean false ∷ string (codes "denied") ∷ int (pos 512) ∷ [])))

abbrev session : Value
session = string (codes "ann:secret")

format_some : server.call_log_format ≢ []
format_some e = ground arith

abbrev blank : RequestAttributes
blank = new_attributes server [] []

silent_run : call_async silent (codes "one.vm.deploy") (session ∷ []) ≡ throws
unfolding call_async
silent_run = refl

execute_proxy-unreachable_example :
    execute_proxy silent server.call_log_format no_hidden
      (codes "one.vm.deploy")
      (session ∷ [])
      blank
    ≡ faults
execute_proxy-unreachable_example =
    execute_proxy-unreachable silent server.call_log_format no_hidden (codes "one.vm.deploy")
      (codes "ann:secret") [] blank format_some (inl silent_run)

refusing_run :
    call_async refusing (codes "one.vm.deploy") (session ∷ [])
    ≡ done (some (array (of_list (boolean false ∷ string (codes "denied") ∷ int (pos 512) ∷ []))))
unfolding call_async
refusing_run = refl

execute_proxy-refused_example :
    (r : RequestAttributes) × (execute_proxy refusing server.call_log_format no_hidden
        (codes "one.vm.deploy")
        (session ∷ [])
        blank
      ≡ done r)
    × (r.retval ≡ answer (string (codes "denied")))
execute_proxy-refused_example =
    execute_proxy-refused refusing server.call_log_format no_hidden (codes "one.vm.deploy")
      (codes "ann:secret") [] blank (codes "denied") (int (pos 512) ∷ []) format_some refusing_run

abbrev told : RequestAttributes
told =
    success_response (string (codes "denied"))
      (record blank { session = codes "ann:secret"; uname = codes "ann"; retval = none })

told_run :
    execute_proxy refusing server.call_log_format no_hidden
      (codes "one.vm.deploy")
      (session ∷ [])
      blank
    ≡ done told
unfolding execute_proxy one_fass.Rpc.get_string one_fass.Rpc.log_method_invoked call_async
    one_fass.Rpc.log_result one_fass.Text.find?
told_run = refl

execute_proxy-Relayed_example :
    (result : Option Value) × (forward refusing (codes "one.vm.deploy") (session ∷ [])
      ≡ done result)
    × Relayed (as_array result) told
execute_proxy-Relayed_example =
    execute_proxy-Relayed refusing server.call_log_format no_hidden (codes "one.vm.deploy")
      (session ∷ []) blank told_run

abbrev items : List Item
items = plain b'M' ∷ plain b'=' ∷ directive b'm' ∷ plain b' ' ∷ []

log_format-print_example :
    ((d : ℕ)
      → log_format blank
          (codes "one.vm.deploy")
          no_hidden
          (session ∷ [])
          (print items ++ (b'%' ∷ d ∷ []))
        ≡ meaning blank (codes "one.vm.deploy") no_hidden (session ∷ []) items
          ++ log_directive blank (codes "one.vm.deploy") no_hidden (session ∷ []) d)
    × ((c : ℕ)
        → log_format blank
            (codes "one.vm.deploy")
            no_hidden
            (session ∷ [])
            (print items ++ (c ∷ []))
          ≡ meaning blank (codes "one.vm.deploy") no_hidden (session ∷ []) items)
log_format-print_example =
    log_format-print blank (codes "one.vm.deploy") no_hidden (session ∷ []) items
      (refl, (refl, (tt, (refl, tt))))

-- The default format: the session is not shown, and the parameters behind it are.
default_format_test :
    log_format blank
      (codes "one.vm.info")
      no_hidden
      (session ∷ int (pos 42) ∷ [])
      server.call_log_format
    ≡ codes "Req:4711 UID:0 one.vm.info invoked , 42"
unfolding log_format one_fass.Text.Decimal.dec
default_format_test = refl
