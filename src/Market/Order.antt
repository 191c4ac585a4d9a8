-- ===== src/Market/Order.antt =====
-- `ordered_candles` of src/kiwit/marketdata/canonical.py orders its candles and keeps them.
use kiwi_t.Prelude.{
  ◌≡◌, refl, inl, inr, ◌⊎◌, Bool, true, false, ◌||◌, List, [], ◌∷◌, any, All, All-mono, arith, ok,
  if-intro, Returning, Returning-bind, Returning-then, Returning-eq, Returning-map,
}
use kiwi_t.Market.Candles.{Candle, is_before, same_key, place, place_all, ordered_candles}

-- a candle comes before another
abbrev pub Before : Candle → Candle → Type 0
Before a b = is_before a b ≡ true

-- Every candle comes before all that follow it.
abbrev pub Ordered : List Candle → Type 0
Ordered [] = Unit
Ordered (c ∷ rest) = All (Before c) rest × Ordered rest

-- a candle of the same times is there
abbrev pub Holds : List Candle → Candle → Type 0
Holds bars c = any (same_key c) bars ≡ true

Before-trans : (a b c : Candle) → Before a b → Before b c → Before a c
unfolding is_before
Before-trans a b c h k = ground arith

Before-same_key : (a b c : Candle) → same_key a b ≡ true → Before b c → Before a c
unfolding is_before same_key
Before-same_key a b c h k = ground arith

Before-total : (a b : Candle) → same_key a b ≡ false → is_before a b ≡ false → Before b a
unfolding is_before same_key
Before-total a b h k = ground arith

-- What holds of all candles and of the one that is placed holds of all afterwards.
place-All :
    (P : Candle → Type 0) (c : Candle) (bars : List Candle)
    → P c
    → All P bars
    → Returning (All P) (place c bars)
unfolding place
place-All P c [] h k = (h, tt)
place-All P c (x ∷ xs) h k =
    if-intro (Returning (All P)) (same_key c x) _ _
      (λ _. Returning-then (All P) _ (ok (c ∷ xs)) (λ _. (h, k.1)))
      (λ _.
        if-intro (Returning (All P)) (is_before c x) (ok (c ∷ x ∷ xs)) _ (λ _. (h, k))
          (λ _.
            Returning-bind (All P) (place c xs) _
              (λ rest e. (k.0, Returning-eq (All P) (place c xs) (place-All P c xs h k.1) e))))

place-Ordered : (c : Candle) (bars : List Candle) → Ordered bars → Returning Ordered (place c bars)
unfolding place
place-Ordered c [] h = (tt, tt)
place-Ordered c (x ∷ xs) h =
    if-intro (Returning Ordered) (same_key c x) _ _
      (λ same.
        Returning-then Ordered _ (ok (c ∷ xs))
          (λ _. (All-mono _ _ (λ y before. Before-same_key c x y same before) xs h.0, h.1)))
      (λ other.
        if-intro (Returning Ordered) (is_before c x) (ok (c ∷ x ∷ xs)) _
          (λ before.
            ((before, All-mono _ _ (λ y later. Before-trans c x y before later) xs h.0), h))
          (λ after. Returning-bind Ordered (place c xs) _ (λ rest e. (
            Returning-eq (All (Before x)) (place c xs)
                (place-All (Before x) c xs (Before-total c x other after) h.0) e,
            Returning-eq Ordered (place c xs) (place-Ordered c xs h.1) e,
          ))))

same_key_self : (c : Candle) → same_key c c ≡ true
unfolding same_key
same_key_self c = ground arith

same_key-swap : (c d x : Candle) → same_key c x ≡ true → same_key d x ≡ same_key d c
unfolding same_key
same_key-swap c d x h = ground arith

or_true : (a b : Bool) → (a ≡ true) ⊎ (b ≡ true) → a || b ≡ true
or_true true b h = refl
or_true false b (inl e) = cc
or_true false b (inr e) = e

true_or : (a b : Bool) → a || b ≡ true → (a ≡ true) ⊎ (b ≡ true)
true_or true b h = inl refl
true_or false b h = inr h

-- A key that is there stays, and the key of the candle is there afterwards.
place-Holds :
    (c d : Candle) (bars : List Candle)
    → (same_key d c ≡ true) ⊎ Holds bars d
    → Returning (λ b. Holds b d) (place c bars)
unfolding place
place-Holds c d [] (inl h) = rw h refl
place-Holds c d [] (inr h) = cc
place-Holds c d (x ∷ xs) h =
    let H : List Candle → Type 0 = λ b. Holds b d in
    if-intro (Returning H) (same_key c x) _ _
      (λ same.
        Returning-then H _ (ok (c ∷ xs)) (λ _. first_or c d x xs (same_key-swap c d x same) h))
      (λ other.
        if-intro (Returning H) (is_before c x) (ok (c ∷ x ∷ xs)) _ (λ _. or_true (same_key d c) _ h)
          (λ _. Returning-bind H (place c xs) _ (λ rest e.
            or_true (same_key d x) _
              (moved c d x xs rest h (λ k. Returning-eq H (place c xs) (place-Holds c d xs k) e)))))
  where
    first_or :
        (c d x : Candle) (xs : List Candle)
        → same_key d x ≡ same_key d c
        → (same_key d c ≡ true) ⊎ Holds (x ∷ xs) d
        → Holds (c ∷ xs) d
    first_or c d x xs e (inl h) = or_true (same_key d c) _ (inl h)
    first_or c d x xs e (inr h) = rw e at h

    moved :
        (c d x : Candle) (xs rest : List Candle)
        → (same_key d c ≡ true) ⊎ Holds (x ∷ xs) d
        → ((same_key d c ≡ true) ⊎ Holds xs d → Holds rest d)
        → (same_key d x ≡ true) ⊎ Holds rest d
    moved c d x xs rest (inl h) f = inr (f (inl h))
    moved c d x xs rest (inr h) f = elim (true_or (same_key d x) (any (same_key d) xs) h) [
      | inl at ↦ inl at
      | inr later ↦ inr (f (inr later))
    ]

-- What the loop keeps: the order, what holds of every candle, and the keys.
record Placed (P : Candle → Type 0) (given : List Candle) (bars : List Candle) : Type 0 where
  ordered : Ordered bars
  kept : All P bars
  held : All (Holds bars) given

place-Returning-Holds :
    (c : Candle) (bars b' : List Candle) (given : List Candle)
    → place c bars ≡ ok b'
    → All (Holds bars) given
    → All (Holds b') given
place-Returning-Holds c bars b' given e h =
    All-mono _ _
      (λ d k. Returning-eq (λ b. Holds b d) (place c bars) (place-Holds c d bars (inr k)) e) given h

place_all-Placed :
    (P : Candle → Type 0) (rest bars given : List Candle)
    → All P rest
    → Placed P given bars
    → Returning (λ b. Placed P given b × All (Holds b) rest) (place_all bars rest)
unfolding place_all
place_all-Placed P [] bars given h p = (p, tt)
place_all-Placed P (c ∷ rest) bars given h p =
    Returning-bind (λ b. Placed P given b × All (Holds b) (c ∷ rest)) (place c bars) _
      (λ b' e.
        let next : Placed P (c ∷ given) b' = record {
          ordered = Returning-eq Ordered (place c bars) (place-Ordered c bars p.ordered) e;
          kept = Returning-eq (All P) (place c bars) (place-All P c bars h.0 p.kept) e;
          held = (
            Returning-eq (λ b. Holds b c) (place c bars)
                (place-Holds c c bars (inl (same_key_self c))) e,
            place-Returning-Holds c bars b' given e p.held,
          );
        } in
        Returning-map (λ b. Placed P (c ∷ given) b × All (Holds b) rest)
          (λ b. Placed P given b × All (Holds b) (c ∷ rest)) (place_all b' rest)
          (λ b r. (
            record { ordered = r.0.ordered; kept = r.0.kept; held = r.0.held.1 },
            (r.0.held.0, r.1),
          ))
          (place_all-Placed P rest b' (c ∷ given) h.1 next))

-- The candles that `ordered_candles` returns stand in the strict order of their times; what holds of
-- every given candle holds of each of them, and each time of a given candle is among theirs.
pub ordered_candles-Ordered :
    (P : Candle → Type 0) (candles : List Candle)
    → All P candles
    → Returning
        (λ bars. Ordered bars × All P bars × All (Holds bars) candles)
        (ordered_candles candles)
unfolding ordered_candles
ordered_candles-Ordered P candles h =
    Returning-map (λ b. Placed P [] b × All (Holds b) candles)
      (λ bars. Ordered bars × All P bars × All (Holds bars) candles) (place_all [] candles)
      (λ b r. (r.0.ordered, r.0.kept, r.1))
      (place_all-Placed P candles [] [] h (record { ordered = tt; kept = tt; held = tt }))
