-- ===== src/Http/Server/Listed.antt =====
-- What stands in the table of sockets of plugins/output_http/httpd.c behind the loop that opens them.
use robotica_movel.Prelude.{
  ℕ, zero, suc, ◌+◌, ◌<◌, min, Bool, true, false, ◌&&◌, List, [], ◌∷◌, ◌++◌, Option, none, some,
  ◌≡◌, refl, sym, ap, ◌∙◌, arith, leb, if◌then◌else◌, Bool-cases, inl, inr, length, take, take_all,
  take-append, replicate, append_assoc, append-nil, length-append,
}
use mathlib.Core.Path.{subst}
use robotica_movel.Prelude.Int.{ℤ, pos}
use robotica_movel.Http.Server.{
  max_sd_len, AddrInfo, Sockets, no_fd, set_sd, next_place, open_socket, open_sockets, init_sockets,
  listener, listeners,
}

set_sd-append : (l : List ℤ) (x y : ℤ) (r : List ℤ) → set_sd (length l) x (l ++ y ∷ r) ≡ l ++ x ∷ r
unfolding set_sd
set_sd-append [] x y r = refl
set_sd-append (z ∷ l) x y r = ap (λ t. z ∷ t) (set_sd-append l x y r)

-- The table while it is filled: the descriptors `l` stand in front.
abbrev filled : List ℤ → ℕ → Sockets
filled l free = record { sd = l ++ replicate free no_fd; i = length l }

next_place_full : (s : Sockets) → s.i ≡ 49 → next_place s ≡ (s, false)
unfolding next_place
next_place_full s h = rw h refl

next_place_free : (s : Sockets) → s.i < 49 → next_place s ≡ (record s { i = s.i + 1 }, true)
unfolding next_place
next_place_free s h = rw still refl
  where
    still : leb max_sd_len (s.i + 1) ≡ false
    still = ground arith

-- How the loop ends: with every listener in the table, or with the first 50 of them.
pub record AreListed (all_listeners : List ℤ) (s : Sockets) : Type 0 where
  pub free : ℕ
  pub table : s.sd ≡ take max_sd_len all_listeners ++ replicate free no_fd
  pub size : length (take max_sd_len all_listeners) + free ≡ max_sd_len
  pub counted : s.i ≡ min 49 (length all_listeners)

set_no_fd :
    (l : List ℤ) (f : ℕ)
    → record (filled l (suc f)) { sd = set_sd (length l) no_fd (l ++ no_fd ∷ replicate f no_fd) }
      ≡ filled l (suc f)
set_no_fd l f =
    ap (λ t. record (filled l (suc f)) { sd = t }) (set_sd-append l no_fd no_fd (replicate f no_fd))

take_whole : (l m : List ℤ) → length l ≡ max_sd_len → take max_sd_len (l ++ m) ≡ l
take_whole l m h = subst (λ n. take n (l ++ m) ≡ l) h (take-append l m)

-- The end of the list.
all_listed : (l : List ℤ) (f : ℕ) → length l + suc f ≡ max_sd_len → AreListed l (filled l (suc f))
all_listed l f h = record {
  free = suc f;
  table = ap (λ t. t ++ replicate (suc f) no_fd) (sym (take_all max_sd_len l (omega (arith, h))));
  size = ap (λ t. length t + suc f) (take_all max_sd_len l (omega (arith, h))) ∙ h;
  counted = omega (arith, h);
}

-- The table is full.
last_listed :
    (l more : List ℤ) (x : ℤ)
    → length l ≡ 49
    → AreListed (l ++ x ∷ more) (record { sd = l ++ x ∷ []; i = length l })
last_listed l more x h =
    let full : length (l ++ x ∷ []) ≡ max_sd_len = omega (arith, h, length-append l (x ∷ [])) in
    let first : take max_sd_len (l ++ x ∷ more) ≡ l ++ x ∷ [] =
      ap (take max_sd_len) (sym (append_assoc l (x ∷ []) more))
      ∙ take_whole (l ++ x ∷ []) more full in
    record {
      free = 0;
      table = sym (ap (λ t. t ++ []) first ∙ append-nil (l ++ x ∷ []));
      size = ap (λ t. length t + 0) first ∙ omega (arith, full);
      counted = omega (arith, h, length-append l (x ∷ more));
    }

-- A listener is put into the table.
put :
    (l : List ℤ) (f fd : ℕ)
    → record (filled l (suc f)) { sd = set_sd (length l) (pos fd) (l ++ no_fd ∷ replicate f no_fd) }
      ≡ record { sd = l ++ pos fd ∷ replicate f no_fd; i = length l }
put l f fd =
    ap (λ t. record { sd = t; i = length l }) (set_sd-append l (pos fd) no_fd (replicate f no_fd))

listener_added :
    (l : List ℤ) (f fd : ℕ)
    → length l + suc (suc f) ≡ max_sd_len
    → next_place (record { sd = l ++ pos fd ∷ replicate (suc f) no_fd; i = length l })
      ≡ (filled (l ++ pos fd ∷ []) (suc f), true)
listener_added l f fd h =
    next_place_free (record { sd = l ++ pos fd ∷ replicate (suc f) no_fd; i = length l })
      (omega (arith, h))
    ∙ ap (λ s. (s, true))
        (ap (λ t. record { sd = t; i = length l + 1 })
            (sym (append_assoc l (pos fd ∷ []) (replicate (suc f) no_fd)))
          ∙ ap (λ n. record { sd = (l ++ pos fd ∷ []) ++ replicate (suc f) no_fd; i = n })
              (sym (length-append l (pos fd ∷ []))))

loop_step :
    (a : AddrInfo) (rest : List AddrInfo) (s s' : Sockets) (goes_on : Bool)
    → open_socket a a.fd s ≡ (s', goes_on)
    → open_sockets (a ∷ rest) s ≡ (if goes_on then open_sockets rest s' else s')
unfolding open_sockets
loop_step a rest s s' goes_on e = ap (λ r. if r.1 then open_sockets rest r.0 else r.0) e

module _ (a : AddrInfo) (l : List ℤ) where
  open_none : (f : ℕ) → open_socket a none (filled l (suc f)) ≡ (filled l (suc f), true)
  unfolding open_socket
  open_none f = ap (λ s. (s, true)) (set_no_fd l f)

  open_deaf :
      (f fd : ℕ)
      → (a.binds && a.listens) ≡ false
      → open_socket a (some fd) (filled l (suc f)) ≡ (filled l (suc f), true)
  unfolding open_socket
  open_deaf f fd e = rw e (ap (λ s. (s, true)) (set_no_fd l f))

  open_listener :
      (f fd : ℕ)
      → (a.binds && a.listens) ≡ true
      → open_socket a (some fd) (filled l (suc f))
        ≡ next_place (record { sd = l ++ pos fd ∷ replicate f no_fd; i = length l })
  unfolding open_socket
  open_listener f fd e = rw e (ap next_place (put l f fd))

-- One entry, when the rest of the loop is as it should be.
module _ (a : AddrInfo) (rest : List AddrInfo)
    (later : (l : List ℤ) (f : ℕ)
      → length l + suc f ≡ max_sd_len
      → AreListed (l ++ listeners rest) (open_sockets rest (filled l (suc f)))) where
  abbrev Goal : List ℤ → ℕ → Type 0
  Goal l f =
      AreListed (l ++ (listener a a.fd ++ listeners rest))
        (open_sockets (a ∷ rest) (filled l (suc f)))

  passed :
      (l : List ℤ) (f : ℕ) (o : Option ℕ)
      → length l + suc f ≡ max_sd_len
      → a.fd ≡ o
      → listener a o ≡ []
      → open_socket a o (filled l (suc f)) ≡ (filled l (suc f), true)
      → Goal l f
  passed l f o h e none_here step =
      subst (λ s. AreListed (l ++ (listener a a.fd ++ listeners rest)) s)
        (sym (
          loop_step a rest (filled l (suc f)) (filled l (suc f)) true
            (ap (λ x. open_socket a x (filled l (suc f))) e ∙ step)))
        (subst (λ t. AreListed (l ++ (t ++ listeners rest)) (open_sockets rest (filled l (suc f))))
          (sym (ap (listener a) e ∙ none_here)) (later l f h))

  -- What becomes of a listener, by what `next_place` does.
  listed :
      (l : List ℤ) (f fd : ℕ) (s' : Sockets) (goes_on : Bool)
      → a.fd ≡ some fd
      → (a.binds && a.listens) ≡ true
      → next_place (record { sd = l ++ pos fd ∷ replicate f no_fd; i = length l }) ≡ (s', goes_on)
      → AreListed (l ++ pos fd ∷ listeners rest) (if goes_on then open_sockets rest s' else s')
      → Goal l f
  listed l f fd s' goes_on e t step done =
      subst (λ s. AreListed (l ++ (listener a a.fd ++ listeners rest)) s)
        (sym (
          loop_step a rest (filled l (suc f)) s' goes_on
            (ap (λ x. open_socket a x (filled l (suc f))) e ∙ (open_listener a l f fd t ∙ step))))
        (subst
          (λ x.
            AreListed (l ++ (x ++ listeners rest)) (if goes_on then open_sockets rest s' else s'))
          (sym (ap (listener a) e ∙ here)) done)
    where
      here : listener a (some fd) ≡ pos fd ∷ []
      here = rw t refl

  by_place :
      (l : List ℤ) (f fd : ℕ)
      → length l + suc f ≡ max_sd_len
      → a.fd ≡ some fd
      → (a.binds && a.listens) ≡ true
      → Goal l f
  by_place l zero fd h e t =
      listed l zero fd (record { sd = l ++ pos fd ∷ []; i = length l }) false e t
        (next_place_full (record { sd = l ++ pos fd ∷ []; i = length l }) (omega (arith, h)))
        (last_listed l (listeners rest) (pos fd) (omega (arith, h)))
  by_place l (suc f) fd h e t =
      listed l (suc f) fd (filled (l ++ pos fd ∷ []) (suc f)) true e t (listener_added l f fd h) (
        subst (λ x. AreListed x (open_sockets rest (filled (l ++ pos fd ∷ []) (suc f))))
          (append_assoc l (pos fd ∷ []) (listeners rest))
          (later (l ++ pos fd ∷ []) f (omega (arith, h, length-append l (pos fd ∷ [])))))

  entry-AreListed : (l : List ℤ) (f : ℕ) → length l + suc f ≡ max_sd_len → Goal l f
  entry-AreListed l f h = by_fd a.fd refl
    where
      by_fd : (o : Option ℕ) → a.fd ≡ o → Goal l f
      by_fd none e = passed l f none h e refl (open_none a l f)
      by_fd (some fd) e = elim (Bool-cases (a.binds && a.listens)) [
        | inl t ↦ by_place l f fd h e t
        | inr n ↦ passed l f (some fd) h e (rw n refl) (open_deaf a l f fd n)
      ]

loop-AreListed :
    (infos : List AddrInfo) (l : List ℤ) (f : ℕ)
    → length l + suc f ≡ max_sd_len
    → AreListed (l ++ listeners infos) (open_sockets infos (filled l (suc f)))
unfolding open_sockets
loop-AreListed [] l f h =
    subst (λ t. AreListed t (filled l (suc f))) (sym (append-nil l)) (all_listed l f h)
loop-AreListed (a ∷ rest) l f h = entry-AreListed a rest (λ m g k. loop-AreListed rest m g k) l f h

-- Whatever `getaddrinfo` gives and `socket`, `bind` and `listen` report: behind the loop the table of
-- 50 places holds the descriptors that listen, in their order and at most the first 50, and -1
-- behind them, and `sd_len` is their number, at most 49.
pub open_sockets-AreListed :
    (infos : List AddrInfo) → AreListed (listeners infos) (open_sockets infos init_sockets)
open_sockets-AreListed infos = loop-AreListed infos [] 49 refl
