-- ===== src/Security/Limits/Parallel.antt =====
-- The parallel connections of go-susi/security/connectionlimits.go, over any sequence of connections that
-- are opened, refused and closed, and of limits that are updated.
use limux_gosa.Base.{
  ℕ, zero, suc, ◌+◌, ◌-◌, ◌^◌, ◌<◌, true, false, Option, none, some, ◌==◌, if◌then◌else◌, ◌≡◌, refl,
  ap, ◌∙◌, arith, Bool-cases, inl, inr, ==_iff,
}
use limux_gosa.Base.Int.{ℤ, pos, pred_ℤ, wrap64, wrap64_small}
use limux_gosa.Base.Text.{Text, text_eq, text_eq_iff, text_eq_refl}
use limux_gosa.Security.Limits.{
  Limits, reset, adjust, count_attempt, admits, admit, register_entry, Limiters, bin_of, put, entry,
  before_colon, found_or_new, register_ip, register, deregister_found, deregister, update_found,
  update,
}

-- The entry of an address after a write.
entry-put :
    (ls : Limiters) (ip a : Text) (l : Limits)
    → entry (put ls ip l) a ≡ (if text_eq a ip then some l else entry ls a)
unfolding entry put
entry-put ls ip a l = elim (Bool-cases (text_eq a ip)) [
  | inl e ↦
      let same : (bin_of a == bin_of ip) ≡ true =
        (==_iff (bin_of a) (bin_of ip)).1 (ap bin_of ((text_eq_iff a ip).0 e)) in
      rw (same, e)
  | inr e ↦ rw e (ground arith)
]

abbrev pub Tally : Type 0
Tally = Text → ℕ

abbrev pub count_up : Tally → Text → Tally
count_up t ip a = if text_eq a ip then t a + 1 else t a

abbrev pub count_down : Tally → Text → Tally
count_down t ip a = if text_eq a ip then t a - 1 else t a

-- The limiters, and how many connections of each address are open.
pub record World : Type 0 where
  pub limiters : Limiters
  pub open_now : Tally

module _ (parse_ip : Text → Option Text) where
  -- A caller deregisters an address only for a connection that was admitted and is still open. No address
  -- has 2^63 - 1 open connections.
  pub data Step : World → World → Type 0 where
    opens :
        (w : World) (addr ip : Text) (now : ℕ)
        → parse_ip (before_colon addr) ≡ some ip
        → (register parse_ip addr now w.limiters).0 ≡ true
        → suc (w.open_now ip) < 2 ^ 63
        → Step w (record {
          limiters = (register parse_ip addr now w.limiters).1;
          open_now = count_up w.open_now ip;
        })
    refuses :
        (w : World) (addr : Text) (now : ℕ)
        → (register parse_ip addr now w.limiters).0 ≡ false
        → Step w (record w { limiters = (register parse_ip addr now w.limiters).1 })
    closes :
        (w : World) (addr ip : Text)
        → parse_ip (before_colon addr) ≡ some ip
        → 0 < w.open_now ip
        → Step w (record {
          limiters = deregister parse_ip addr w.limiters;
          open_now = count_down w.open_now ip;
        })
    updates :
        (w : World) (ip : Text) (parallel per_hour : ℤ)
        → Step w (record w { limiters = update ip parallel per_hour w.limiters })

  pub data Steps (start : World) : World → Type 0 where
    here : Steps start start
    next : {v w : World} → Steps start v → Step v w → Steps start w

-- An entry counts the open connections of its address; without an entry there are none.
abbrev Agrees : Option Limits → ℕ → Type 0
Agrees none n = n ≡ 0
Agrees (some l) n = (l.active ≡ pos n) × (n < 2 ^ 63)

pub record Counts (w : World) : Type 0 where
  pub at : (ip : Text) → Agrees (entry w.limiters ip) (w.open_now ip)

active-count :
    (now : ℕ) (l : Limits) → (count_attempt now (adjust now (reset now l))).active ≡ l.active
unfolding count_attempt adjust reset
active-count now l = ground arith

admit-true :
    (n : ℕ) (l : Limits)
    → l.active ≡ pos n
    → suc n < 2 ^ 63
    → (admit l).0 ≡ true
    → (admit l).1.active ≡ pos (suc n)
unfolding admit
admit-true n l e h = elim (Bool-cases (admits l)) [
  | inl a ↦ rw (a, e) (λ _. wrap64_small (suc n) h)
  | inr a ↦ rw a (λ c. cc c)
]

admit-false : (l : Limits) → (admit l).0 ≡ false → (admit l).1.active ≡ l.active
unfolding admit
admit-false l = elim (Bool-cases (admits l)) [ inl a ↦ rw a (λ c. cc c) | inr a ↦ rw a (λ _. refl) ]

entry_true :
    (now n : ℕ) (l : Limits)
    → l.active ≡ pos n
    → suc n < 2 ^ 63
    → (register_entry now l).0 ≡ true
    → (register_entry now l).1.active ≡ pos (suc n)
unfolding register_entry
entry_true now n l e =
    admit-true n (count_attempt now (adjust now (reset now l))) (active-count now l ∙ e)

entry_false :
    (now n : ℕ) (l : Limits)
    → l.active ≡ pos n
    → (register_entry now l).0 ≡ false
    → (register_entry now l).1.active ≡ pos n
unfolding register_entry
entry_false now n l e t =
    admit-false (count_attempt now (adjust now (reset now l))) t ∙ active-count now l ∙ e

found_counts : (now n : ℕ) (o : Option Limits) → Agrees o n → (found_or_new now o).active ≡ pos n
found_counts now n none e = rw e
found_counts now n (some l) e = e.0

-- A write to one address, against a tally that changes there alone.
put-Counts :
    (ls : Limiters) (t u : Tally) (ip : Text) (l : Limits)
    → ((a : Text) → Agrees (entry ls a) (t a))
    → l.active ≡ pos (u ip)
    → u ip < 2 ^ 63
    → ((a : Text) → text_eq a ip ≡ false → u a ≡ t a)
    → (a : Text) → Agrees (entry (put ls ip l) a) (u a)
put-Counts ls t u ip l k e h same a = rw (entry-put ls ip a l) (elim (Bool-cases (text_eq a ip)) [
  | inl q ↦ rw (q, (text_eq_iff a ip).0 q) (e, h)
  | inr q ↦ rw (q, same a q) (k a)
])

up_self : (t : Tally) (ip : Text) → count_up t ip ip ≡ suc (t ip)
up_self t ip = rw (text_eq_refl ip) (omega arith)

down_self : (t : Tally) (ip : Text) → count_down t ip ip ≡ t ip - 1
down_self t ip = rw (text_eq_refl ip)

register_ip-false :
    (p : Option Text) (now : ℕ) (ls : Limiters) (t : Tally)
    → ((a : Text) → Agrees (entry ls a) (t a))
    → ((a : Text) → t a < 2 ^ 63)
    → (register_ip p now ls).0 ≡ false
    → (a : Text) → Agrees (entry (register_ip p now ls).1 a) (t a)
unfolding register_ip
register_ip-false none now ls t k h r = k
register_ip-false (some ip) now ls t k h r =
    let l = found_or_new now (entry ls ip) in
    put-Counts ls t t ip (register_entry now l).1 k
      (entry_false now (t ip) l (found_counts now (t ip) (entry ls ip) (k ip)) r) (h ip)
      (λ a q. refl)

bounded : (o : Option Limits) (n : ℕ) → Agrees o n → n < 2 ^ 63
bounded none n e = omega (arith, e)
bounded (some l) n e = e.1

wrap64-pred : (n : ℕ) → n < 2 ^ 63 → 0 < n → wrap64 (pred_ℤ (pos n)) ≡ pos (n - 1)
wrap64-pred zero h p = elim p [ ]
wrap64-pred (suc n) h p = rw (wrap64_small n (omega arith)) (ap pos (omega arith))

deregister_counts :
    (ip : Text) (o : Option Limits) (ls : Limiters) (t : Tally)
    → ((a : Text) → Agrees (entry ls a) (t a))
    → Agrees o (t ip)
    → 0 < t ip
    → (a : Text) → Agrees (entry (deregister_found ip o ls) a) (count_down t ip a)
unfolding deregister_found
deregister_counts ip none ls t k e h = absurd (omega (arith, e, h))
deregister_counts ip (some l) ls t k e h =
    put-Counts ls t (count_down t ip) ip (record l { active = wrap64 (pred_ℤ l.active) }) k
      (rw (down_self t ip, e.0) (wrap64-pred (t ip) e.1 h))
      (rw (down_self t ip) (omega (arith, e.1))) (λ a q. rw q)

update_counts :
    (ip : Text) (parallel per_hour : ℤ) (o : Option Limits) (ls : Limiters) (t : Tally)
    → ((a : Text) → Agrees (entry ls a) (t a))
    → Agrees o (t ip)
    → (a : Text) → Agrees (entry (update_found ip parallel per_hour o ls) a) (t a)
unfolding update_found
update_counts ip parallel per_hour none ls t k e = k
update_counts ip parallel per_hour (some l) ls t k e =
    put-Counts ls t t ip (record l { max_active = parallel; max_per_hour = per_hour }) k e.0 e.1
      (λ a q. refl)

module _ (parse_ip : Text → Option Text) where
  Step-Counts : {v w : World} → Step parse_ip v w → Counts v → Counts w
  unfolding register deregister update
  Step-Counts (opens w addr ip now e t h) k =
      let l = found_or_new now (entry w.limiters ip) in
      record {
        at = rw e (
            put-Counts w.limiters w.open_now (count_up w.open_now ip) ip (register_entry now l).1
              k.at
              (rw (up_self w.open_now ip) (
                entry_true now (w.open_now ip) l
                  (found_counts now (w.open_now ip) (entry w.limiters ip) (k.at ip)) h (rw e at t)))
              (rw (up_self w.open_now ip) h) (λ a q. rw q));
      }
  Step-Counts (refuses w addr now t) k = record {
    at =
        register_ip-false (parse_ip (before_colon addr)) now w.limiters w.open_now k.at
          (λ a. bounded (entry w.limiters a) (w.open_now a) (k.at a)) t;
  }
  Step-Counts (closes w addr ip e h) k = record {
    at = rw e (deregister_counts ip (entry w.limiters ip) w.limiters w.open_now k.at (k.at ip) h);
  }
  Step-Counts (updates w ip parallel per_hour) k = record {
    at =
        update_counts ip parallel per_hour (entry w.limiters ip) w.limiters w.open_now k.at
          (k.at ip);
  }

  Steps-Counts : {v w : World} → Steps parse_ip v w → Counts v → Counts w
  Steps-Counts here k = k
  Steps-Counts (next r s) k = Step-Counts s (Steps-Counts r k)

max_active-count :
    (now : ℕ) (l : Limits)
    → (count_attempt now (adjust now (reset now l))).max_active ≡ l.max_active
unfolding count_attempt adjust reset
max_active-count now l = ground arith

admit_limit :
    (n m : ℕ) (l : Limits)
    → l.active ≡ pos n
    → l.max_active ≡ pos m
    → 0 < m
    → (admit l).0 ≡ true
    → n < m
unfolding admit admits
admit_limit n m l e q h t = ground arith

register_entry_limit :
    (now n m : ℕ) (l : Limits)
    → l.active ≡ pos n
    → l.max_active ≡ pos m
    → 0 < m
    → (register_entry now l).0 ≡ true
    → n < m
unfolding register_entry
register_entry_limit now n m l e q =
    admit_limit n m (count_attempt now (adjust now (reset now l))) (active-count now l ∙ e)
      (max_active-count now l ∙ q)

-- The limiters when the program starts.
abbrev pub at_start : World
at_start = record { limiters = λ bin ip. none; open_now = λ ip. 0 }

-- After any sequence of connections opened, refused and closed and of limits updated, a connection is
-- admitted only if its address has fewer connections open than the limit that is set for it, if a limit is
-- set; so the limit on parallel connections is never passed by a connection that is admitted.
pub register_below_limit :
    (parse_ip : Text → Option Text) (w : World) (addr ip : Text) (now m : ℕ) (l : Limits)
    → Steps parse_ip at_start w
    → parse_ip (before_colon addr) ≡ some ip
    → entry w.limiters ip ≡ some l
    → l.max_active ≡ pos m
    → 0 < m
    → (register parse_ip addr now w.limiters).0 ≡ true
    → w.open_now ip < m
unfolding register entry
register_below_limit parse_ip w addr ip now m l r e x q h t =
    let k = Steps-Counts parse_ip r (record { at = λ a. refl }) in
    let t' : (register_entry now l).0 ≡ true = rw (e, x) at t in
    register_entry_limit now (w.open_now ip) m l (rw x at (k.at ip)).0 q h t'
