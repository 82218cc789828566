-- ===== src/Redis/Client.antt =====
-- The objects of hiredis that `RedisClient` (lib/database/redis_client.cpp) holds and frees. What hiredis gives is an
-- argument: an object is known by a number.
use calm_trading_system.Base.{ℕ, nat_eq, Option, some, none, List, [], ◌∷◌, if◌then◌else◌}
use calm_trading_system.Utils.{Bytes}
use calm_trading_system.Redis.{is_sentinel}

-- `freed` is what was handed to `redisFree` and `freeReplyObject`.
pub record RedisClient : Type 0 where
  pub context : Option ℕ
  pub reply : Option ℕ
  pub freed : List ℕ

-- A call, with what hiredis gives; `none` is a null pointer, or a reply that fails. A call may throw then, and
-- leaves the fields as they are here.
pub data Call : Type 0 where
  connects : Option ℕ → Call
  disconnects destroys : Call
  publishes : Option ℕ → Call
  subscribes : Option ℕ → List (Option (ℕ × Bytes)) → Call

abbrev pub init : RedisClient
init = record { context = none; reply = none; freed = [] }

unfoldable pub free_context : RedisClient → RedisClient
free_context c = elim c.context [
  | none ↦ c
  | some h ↦ record c { context = none; freed = h ∷ c.freed }
]

unfoldable pub free_reply : RedisClient → RedisClient
free_reply c = elim c.reply [ none ↦ c | some h ↦ record c { reply = none; freed = h ∷ c.freed } ]

-- The loop of `subscribe`, as long as hiredis answers.
unfoldable pub listen_loop : Bytes → List (Option (ℕ × Bytes)) → RedisClient → RedisClient
unfolding free_reply is_sentinel
listen_loop sentinel [] c = c
listen_loop sentinel (none ∷ as_) c = c
listen_loop sentinel (some (h, msg) ∷ as_) c =
    let rest = listen_loop sentinel as_ (free_reply (record c { reply = some h })) in
    if is_sentinel sentinel msg then record c { reply = some h } else rest

unfoldable pub call : Bytes → Call → RedisClient → RedisClient
unfolding free_context free_reply listen_loop
call sentinel (connects a) c = record c { context = a }
call sentinel disconnects c = free_context c
call sentinel destroys c = free_context (free_reply c)
call sentinel (publishes a) c = record c { reply = a }
call sentinel (subscribes none as_) c = record c { reply = none }
call sentinel (subscribes (some h) as_) c =
    listen_loop sentinel as_ (free_reply (record c { reply = some h }))

unfoldable pub call_all : Bytes → List Call → RedisClient → RedisClient
unfolding call
call_all sentinel [] c = c
call_all sentinel (k ∷ ks) c = call_all sentinel ks (call sentinel k c)
