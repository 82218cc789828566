-- ===== src/Redis/Tidy.antt =====
-- What a client of lib/database/redis_client.cpp frees, and what it holds.
use calm_trading_system.Base.{
  ℕ, nat_eq, nat_beq_iff, ◌==◌, ◌||◌, ◌&&◌, not, Bool, true, false, ◌≡◌, refl, sym, ◌∙◌, subst,
  Option, some, none, Option-cases, Bool-cases, inl, inr, List, [], ◌∷◌, ◌++◌, arith,
}
use calm_trading_system.Utils.{Bytes}
use calm_trading_system.Redis.{is_sentinel}
use calm_trading_system.Redis.Client.{
  RedisClient, Call, connects, disconnects, destroys, publishes, subscribes, init, free_context,
  free_reply, listen_loop, call, call_all,
}

abbrev pub has : ℕ → List ℕ → Bool
has h [] = false
has h (j ∷ hs) = (h == j) || has h hs

-- No number stands twice.
abbrev pub distinct : List ℕ → Bool
distinct [] = true
distinct (h ∷ hs) = not (has h hs) && distinct hs

-- The numbers are new, and none stands twice.
abbrev pub are_fresh : List ℕ → List ℕ → Bool
are_fresh given [] = true
are_fresh given (h ∷ hs) = not (has h given) && are_fresh (h ∷ given) hs

-- What hiredis gives in calls.
abbrev pub answers : List (Option (ℕ × Bytes)) → List ℕ
answers [] = []
answers (none ∷ as_) = answers as_
answers (some (h, msg) ∷ as_) = h ∷ answers as_

abbrev pub gives : Call → List ℕ
gives (connects none) = []
gives (connects (some h)) = h ∷ []
gives (publishes none) = []
gives (publishes (some h)) = h ∷ []
gives (subscribes none as_) = []
gives (subscribes (some h) as_) = h ∷ answers as_
gives disconnects = []
gives destroys = []

abbrev pub gives_all : List Call → List ℕ
gives_all [] = []
gives_all (k ∷ ks) = gives k ++ gives_all ks

abbrev pub held : Option ℕ → ℕ → Bool
held none h = false
held (some j) h = h == j

-- Of the objects that were given, what is freed was freed once, and what is held is not freed.
pub record IsTidy (given : List ℕ) (c : RedisClient) : Type 0 where
  pub once : distinct c.freed ≡ true
  pub live_context : (h : ℕ) → held c.context h ≡ true → has h c.freed ≡ false
  pub live_reply :
      (h : ℕ) → held c.reply h ≡ true → (has h c.freed ≡ false) × (held c.context h ≡ false)
  pub known :
      (h : ℕ) → (held c.context h || held c.reply h || has h c.freed) ≡ true → has h given ≡ true

new_reply-IsTidy :
    (given : List ℕ) (h : ℕ) (c : RedisClient)
    → has h given ≡ false
    → IsTidy given c
    → IsTidy (h ∷ given) (record c { reply = some h })
new_reply-IsTidy given h c new k = record {
  once = k.once;
  live_context = k.live_context;
  live_reply = λ j e. ground (arith, k.known j, nat_beq_iff j h);
  known = λ j e. ground (arith, k.known j, nat_beq_iff j h);
}

new_context-IsTidy :
    (given : List ℕ) (h : ℕ) (c : RedisClient)
    → has h given ≡ false
    → IsTidy given c
    → IsTidy (h ∷ given) (record c { context = some h })
new_context-IsTidy given h c new k = record {
  once = k.once;
  live_context = λ j e. ground (arith, k.known j, nat_beq_iff j h);
  live_reply = λ j e. ground (arith, k.known j, k.live_reply j, nat_beq_iff j h);
  known = λ j e. ground (arith, k.known j, nat_beq_iff j h);
}

no_reply-IsTidy :
    (given : List ℕ) (c : RedisClient) → IsTidy given c → IsTidy given (record c { reply = none })
no_reply-IsTidy given c k = record {
  once = k.once;
  live_context = k.live_context;
  live_reply = λ j e. cc;
  known = λ j e. ground (arith, k.known j);
}

no_context-IsTidy :
    (given : List ℕ) (c : RedisClient) → IsTidy given c → IsTidy given (record c { context = none })
no_context-IsTidy given c k = record {
  once = k.once;
  live_context = λ j e. cc;
  live_reply = λ j e. ((k.live_reply j e).0, refl);
  known = λ j e. ground (arith, k.known j);
}

free_reply-IsTidy :
    (given : List ℕ) (c : RedisClient) → IsTidy given c → IsTidy given (free_reply c)
unfolding free_reply
free_reply-IsTidy given c k = elim (Option-cases c.reply) [
  | inl nothing ↦ subst (IsTidy given) (ground arith) k
  | inr (h, here) ↦
      let live = k.live_reply h (ground (arith, nat_beq_iff h h)) in
      let t : RedisClient = record c { reply = none; freed = h ∷ c.freed } in
      let done : IsTidy given t = record {
        once = ground (arith, k.once, live.0);
        live_context = λ j e. ground (arith, k.live_context j, live.1, nat_beq_iff j h);
        live_reply = λ j e. cc;
        known = λ j e. ground (arith, k.known j, nat_beq_iff j h);
      } in
      subst (IsTidy given) (ground arith) done
]

free_context-IsTidy :
    (given : List ℕ) (c : RedisClient) → IsTidy given c → IsTidy given (free_context c)
unfolding free_context
free_context-IsTidy given c k = elim (Option-cases c.context) [
  | inl nothing ↦ subst (IsTidy given) (ground arith) k
  | inr (h, here) ↦
      let live = k.live_context h (ground (arith, nat_beq_iff h h)) in
      let t : RedisClient = record c { context = none; freed = h ∷ c.freed } in
      let done : IsTidy given t = record {
        once = ground (arith, k.once, live);
        live_context = λ j e. cc;
        live_reply = λ j e. (ground (arith, k.live_reply j, nat_beq_iff j h), refl);
        known = λ j e. ground (arith, k.known j, nat_beq_iff j h);
      } in
      subst (IsTidy given) (ground arith) done
]

-- The objects that were given, with those that come.
abbrev after : List ℕ → List ℕ → List ℕ
after given [] = given
after given (h ∷ hs) = after (h ∷ given) hs

after-append : (given hs js : List ℕ) → after given (hs ++ js) ≡ after (after given hs) js
after-append given [] js = refl
after-append given (h ∷ hs) js = after-append (h ∷ given) hs js

are_fresh-append :
    (given hs js : List ℕ)
    → are_fresh given (hs ++ js) ≡ are_fresh given hs && are_fresh (after given hs) js
are_fresh-append given [] js = refl
are_fresh-append given (h ∷ hs) js = ground (arith, are_fresh-append (h ∷ given) hs js)

-- More may have been given.
more-IsTidy : (given hs : List ℕ) (c : RedisClient) → IsTidy given c → IsTidy (after given hs) c
more-IsTidy given [] c k = k
more-IsTidy given (h ∷ hs) c k = more-IsTidy (h ∷ given) hs c (record {
  once = k.once;
  live_context = k.live_context;
  live_reply = k.live_reply;
  known = λ j e. ground (arith, k.known j e);
})

module _ (sentinel : Bytes) where
  listen_loop-IsTidy :
      (given : List ℕ) (as_ : List (Option (ℕ × Bytes))) (c : RedisClient)
      → are_fresh given (answers as_) ≡ true
      → IsTidy given c
      → IsTidy (after given (answers as_)) (listen_loop sentinel as_ c)
  unfolding listen_loop
  listen_loop-IsTidy given [] c f k = k
  listen_loop-IsTidy given (none ∷ as_) c f k = more-IsTidy given (answers as_) c k
  listen_loop-IsTidy given (some (h, msg) ∷ as_) c f k =
      let got = new_reply-IsTidy given h c (ground arith) k in
      let rest =
        listen_loop-IsTidy (h ∷ given) as_ (free_reply (record c { reply = some h })) (ground arith)
          (free_reply-IsTidy (h ∷ given) (record c { reply = some h }) got) in
      elim (Bool-cases (is_sentinel sentinel msg)) [
        | inl ends ↦
            rw ends (more-IsTidy (h ∷ given) (answers as_) (record c { reply = some h }) got)
        | inr goes_on ↦ rw goes_on rest
      ]

  call-IsTidy :
      (given : List ℕ) (x : Call) (c : RedisClient)
      → are_fresh given (gives x) ≡ true
      → IsTidy given c
      → IsTidy (after given (gives x)) (call sentinel x c)
  unfolding call
  call-IsTidy given (connects none) c f k = no_context-IsTidy given c k
  call-IsTidy given (connects (some h)) c f k = new_context-IsTidy given h c (ground arith) k
  call-IsTidy given disconnects c f k = free_context-IsTidy given c k
  call-IsTidy given destroys c f k =
      free_context-IsTidy given (free_reply c) (free_reply-IsTidy given c k)
  call-IsTidy given (publishes none) c f k = no_reply-IsTidy given c k
  call-IsTidy given (publishes (some h)) c f k = new_reply-IsTidy given h c (ground arith) k
  call-IsTidy given (subscribes none as_) c f k = no_reply-IsTidy given c k
  call-IsTidy given (subscribes (some h) as_) c f k =
      listen_loop-IsTidy (h ∷ given) as_ (free_reply (record c { reply = some h })) (ground arith) (
        free_reply-IsTidy (h ∷ given) (record c { reply = some h })
          (new_reply-IsTidy given h c (ground arith) k))

  all-IsTidy :
      (given : List ℕ) (xs : List Call) (c : RedisClient)
      → are_fresh given (gives_all xs) ≡ true
      → IsTidy given c
      → IsTidy (after given (gives_all xs)) (call_all sentinel xs c)
  unfolding call_all
  all-IsTidy given [] c f k = k
  all-IsTidy given (x ∷ xs) c f k =
      let new = sym (are_fresh-append given (gives x) (gives_all xs)) ∙ f in
      let next = call-IsTidy given x c (ground (arith, new)) k in
      subst (λ g. IsTidy g (call_all sentinel xs (call sentinel x c)))
        (sym (after-append given (gives x) (gives_all xs)))
        (all-IsTidy (after given (gives x)) xs (call sentinel x c) (ground (arith, new)) next)

  -- If hiredis never gives an object that it gave before, then over any calls of a client from its construction on no object is
  -- freed twice, and what the client then holds as context or as reply is not freed.
  pub freed_once :
      (xs : List Call)
      → are_fresh [] (gives_all xs) ≡ true
      → let c = call_all sentinel xs init in
        (distinct c.freed ≡ true)
        × ((h : ℕ) → (held c.context h || held c.reply h) && has h c.freed ≡ false)
  freed_once xs f =
      let c = call_all sentinel xs init in
      let k : IsTidy (after [] (gives_all xs)) c = all-IsTidy [] xs init f (record {
        once = refl;
        live_context = λ h e. cc;
        live_reply = λ h e. cc;
        known = λ h e. cc;
      }) in
      (k.once, λ h. ground (arith, k.live_context h, k.live_reply h))
