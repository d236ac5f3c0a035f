-- ===== src/Tcpserver/Tracked.antt =====
-- What holds of the tracked connections in every state that `Serve` reaches.
use wbsv.Common.{
  ℕ, suc, ◌+◌, ◌-◌, ◌≤◌, ◌<◌, ◌≡◌, refl, ap, inl, inr, true, false, ◌&&◌, some, List, [], ◌∷◌,
  arith, ◌==◌, Bool-cases, length, ℤ, ◌≤ℤ◌, ltb_ℤ, leb_ℤ, pos,
}
use wbsv.Tcpserver.{
  is_full, Server, forget_conn, close_active_conns, track_conn, begin_shutdown, wg_done, member,
  delete,
}
use wbsv.Tcpserver.Steps.{after_track, Step, Reach, accept_conn, begin_untrack, new_system, System}
use mathlib.Core.Path.{subst}

-- The numbers fall, from below `n`.
abbrev pub Below : ℕ → List ℕ → Type 0
Below n [] = Unit
Below n (x ∷ xs) = (x < n) × Below x xs

Below-mono : (m n : ℕ) (xs : List ℕ) → m ≤ n → Below m xs → Below n xs
Below-mono m n [] h b = tt
Below-mono m n (x ∷ xs) h (p, b) = (omega arith, b)

member-Below : (c n : ℕ) (xs : List ℕ) → n ≤ c → Below n xs → member c xs ≡ false
member-Below c n [] h b = refl
member-Below c n (x ∷ xs) h (p, b) = ground (arith, member-Below c x xs (omega arith) b)

delete-Below : (c n : ℕ) (xs : List ℕ) → Below n xs → Below n (delete c xs)
unfolding delete
delete-Below c n [] b = tt
delete-Below c n (x ∷ xs) (p, b) = elim (Bool-cases (x == c)) [
  | inl same ↦ rw same (Below-mono x n (delete c xs) (omega arith) (delete-Below c x xs b))
  | inr other ↦ rw other (p, delete-Below c x xs b)
]

delete-absent : (c n : ℕ) (xs : List ℕ) → n ≤ c → Below n xs → delete c xs ≡ xs
unfolding delete
delete-absent c n [] h b = refl
delete-absent c n (x ∷ xs) h (p, b) = ground (arith, delete-absent c x xs (omega arith) b)

-- A connection stands in the map once.
length-delete :
    (c n : ℕ) (xs : List ℕ)
    → Below n xs
    → member c xs ≡ true
    → length xs ≡ suc (length (delete c xs))
unfolding delete
length-delete c n [] b h = cc
length-delete c n (x ∷ xs) (p, b) h = elim (Bool-cases (x == c)) [
  | inl same ↦ rw (same, delete-absent c x xs (ground arith) b)
  | inr other ↦
      let rest : length xs ≡ suc (length (delete c xs)) = length-delete c x xs b (ground arith) in
      rw (other, rest)
]

abbrev pub Fits : ℤ → ℕ → Type 0
Fits max n = pos 1 ≤ℤ max → pos n ≤ℤ max

pub record IsTracked (max : ℤ) (sys : System) : Type 0 where
  pub max_is : sys.server.max_active_conns ≡ max
  pub served : sys.serving ≡ sys.server.active_conns
  pub unique : Below sys.next sys.server.active_conns
  pub counted : sys.server.wg ≡ length sys.server.active_conns + sys.leaving
  pub fits : Fits max (length sys.server.active_conns)

new_system-IsTracked : (max : ℤ) → IsTracked max (new_system max)
unfolding new_system
new_system-IsTracked max = record {
  max_is = refl;
  served = refl;
  unique = tt;
  counted = refl;
  fits = λ h. omega arith;
}

accept_conn-IsTracked :
    (max : ℤ) (sys : System) → IsTracked max sys → IsTracked max (accept_conn sys)
unfolding accept_conn track_conn after_track
accept_conn-IsTracked max sys t = elim (Bool-cases sys.server.shutting) [
  | inl stops ↦ rw stops (record {
    max_is = t.max_is;
    served = t.served;
    unique = Below-mono sys.next (sys.next + 1) sys.server.active_conns (omega arith) t.unique;
    counted = t.counted;
    fits = t.fits;
  })
  | inr runs ↦ elim (Bool-cases (is_full sys.server)) [
    | inl full ↦
        rw (runs, full)
          (record {
            max_is = t.max_is;
            served = t.served;
            unique =
                Below-mono sys.next (sys.next + 1) sys.server.active_conns (omega arith) t.unique;
            counted = t.counted;
            fits = t.fits;
          })
    | inr free ↦
        let new : member sys.next sys.server.active_conns ≡ false =
          member-Below sys.next sys.next sys.server.active_conns (omega arith) t.unique in
        rw (runs, free, new)
          (record {
            max_is = t.max_is;
            served = ap (◌∷◌ sys.next) t.served;
            unique = (omega arith, t.unique);
            counted = omega (arith, t.counted);
            fits =
                room max sys.server.max_active_conns (length sys.server.active_conns) t.max_is free;
          })
  ]
]
  where
    room :
        (max m : ℤ) (n : ℕ)
        → m ≡ max
        → (ltb_ℤ (pos 0) m && leb_ℤ m (pos n)) ≡ false
        → Fits max (suc n)
    room max m n e free = ground arith

begin_untrack-IsTracked :
    (max : ℤ) (sys : System) (conn : ℕ)
    → member conn sys.serving ≡ true
    → IsTracked max sys
    → IsTracked max (begin_untrack sys conn)
unfolding begin_untrack forget_conn
begin_untrack-IsTracked max sys conn h t =
    let there : member conn sys.server.active_conns ≡ true = rw (t.served) at h in
    let shorter : length sys.server.active_conns
        ≡ suc (length (delete conn sys.server.active_conns)) =
      length-delete conn sys.next sys.server.active_conns t.unique there in
    record {
      max_is = t.max_is;
      served = ap (delete conn) t.served;
      unique = delete-Below conn sys.next sys.server.active_conns t.unique;
      counted = omega (arith, t.counted, shorter);
      fits = λ p. let full = t.fits p in omega (arith, full, shorter);
    }

wg_done-IsTracked :
    (max : ℤ) (sys : System) (s : Server) (n : ℕ)
    → sys.leaving ≡ suc n
    → wg_done sys.server ≡ some s
    → IsTracked max sys
    → IsTracked max (record sys { server = s; leaving = n })
unfolding wg_done
wg_done-IsTracked max sys s n l h t =
    let more : (sys.server.wg == 0) ≡ false = ground (arith, t.counted) in
    let is : record sys.server { wg = sys.server.wg - 1 } ≡ s = ground (arith, rw more at h) in
    subst (λ x. IsTracked max (record sys { server = x; leaving = n })) is
      (record {
        max_is = t.max_is;
        served = t.served;
        unique = t.unique;
        counted = omega (arith, t.counted);
        fits = t.fits;
      })

pub Step-IsTracked : (max : ℤ) {a b : System} → Step a b → IsTracked max a → IsTracked max b
unfolding begin_shutdown close_active_conns
Step-IsTracked max {a} (Step.accepts h) t = accept_conn-IsTracked max a t
Step-IsTracked max {a} Step.accept_fails t = record {
  max_is = t.max_is;
  served = t.served;
  unique = t.unique;
  counted = t.counted;
  fits = t.fits;
}
Step-IsTracked max {a} (Step.untracks conn h) t = begin_untrack-IsTracked max a conn h t
Step-IsTracked max {a} (Step.done s n l h) t = wg_done-IsTracked max a s n l h t
Step-IsTracked max {a} Step.begins_shutdown t = record {
  max_is = t.max_is;
  served = t.served;
  unique = t.unique;
  counted = t.counted;
  fits = t.fits;
}
Step-IsTracked max {a} Step.closes_active t = record {
  max_is = t.max_is;
  served = t.served;
  unique = t.unique;
  counted = t.counted;
  fits = t.fits;
}

pub Reach-keeps : (max : ℤ) {a b : System} → Reach a b → IsTracked max a → IsTracked max b
Reach-keeps max Reach.here t = t
Reach-keeps max (Reach.before s r) t = Reach-keeps max r (Step-IsTracked max s t)

-- In every state that a new server reaches, whatever the order of the goroutines' steps: the
-- connections in the map are the ones being served, each once, no more than `MaxActiveConns` allows,
-- and the wait group counts them and the ones that are still leaving.
pub Reach-IsTracked : (max : ℤ) (sys : System) → Reach (new_system max) sys → IsTracked max sys
Reach-IsTracked max sys r = Reach-keeps max r (new_system-IsTracked max)

-- `untrackConn` does not bring the counter of the wait group below zero, so that no goroutine panics
-- there: whenever a goroutine is leaving, `wg.Done` is possible.
pub wg_done_safe :
    (max : ℤ) (sys : System) (n : ℕ)
    → Reach (new_system max) sys
    → sys.leaving ≡ suc n
    → wg_done sys.server ≡ some (record sys.server { wg = sys.server.wg - 1 })
unfolding wg_done
wg_done_safe max sys n r h = let t = Reach-IsTracked max sys r in ground (arith, t.counted)
