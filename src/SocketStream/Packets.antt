-- ===== src/SocketStream/Packets.antt =====
-- The loop over packets does not close the stream.
use mtrpc.Base.{ℕ, zero, suc, ℤ, Bool, if_intro, if◌then◌else◌}
use mtrpc.SocketStream.{Shared, SocketStream, Fault, Result}
use mtrpc.SocketStream.Keeps.{Keeps, Keeps-refl, Keeps-trans, Always, gives, stops, map-Always}
use mtrpc.SocketStream.Rounds.{Round, done, next, crash, or_crash, after, rounds, go_on}

module _ {U : Type 0} where
  -- What a round does leaves alone whether the stream is closed.
  pub data Spares (s : SocketStream U) : Round U → Type 0 where
    done_so : {t : SocketStream U} → Keeps s t → Spares s (done t)
    next_so : {t : SocketStream U} {n : ℤ} → Keeps s t → Spares s (next t n)
    crash_so : {e : Fault} {t : SocketStream U} → Keeps s t → Spares s (crash e t)

  pub or_crash-Spares :
      (s : SocketStream U) {o : Result U (SocketStream U)}
      → Always (Keeps s) (Keeps s) o
      → Spares s (or_crash o)
  or_crash-Spares s (gives k) = done_so k
  or_crash-Spares s (stops k) = crash_so k

  pub if-Spares :
      (s : SocketStream U) (b : Bool) {x y : Round U}
      → Spares s x
      → Spares s y
      → Spares s (if b then x else y)
  if-Spares s b p q = if_intro (Spares s) b p q

  pub go_on-Spares : (s from t : SocketStream U) (n : ℤ) → Keeps s t → Spares s (go_on from t n)
  go_on-Spares s from t n k = if-Spares s _ (done_so k) (if-Spares s _ (next_so k) (done_so k))

  -- What closures and parsers change plays no part.
  pub Spares-shared :
      (s : SocketStream U) (x : Shared U) {r : Round U}
      → Spares (record s { shared = x }) r
      → Spares s r
  Spares-shared s x (done_so k) =
      done_so (record { same_closed = k.same_closed; deletes = k.deletes; closes = k.closes })
  Spares-shared s x (next_so k) =
      next_so (record { same_closed = k.same_closed; deletes = k.deletes; closes = k.closes })
  Spares-shared s x (crash_so k) =
      crash_so (record { same_closed = k.same_closed; deletes = k.deletes; closes = k.closes })

  pub after-Keeps :
      (s : SocketStream U) {r : Round U} (rest : SocketStream U → ℤ → Result U (SocketStream U))
      → Spares s r
      → ((t : SocketStream U) (n : ℤ) → Always (Keeps t) (Keeps t) (rest t n))
      → Always (Keeps s) (Keeps s) (after r rest)
  after-Keeps s rest (done_so k) h = gives k
  after-Keeps s rest (next_so {t = t} {n = n} k) h =
      map-Always (λ u l. Keeps-trans k l) (λ u l. Keeps-trans k l) (h t n)
  after-Keeps s rest (crash_so k) h = stops k

  module _ (round : SocketStream U → ℤ → Round U)
      (spares : (s : SocketStream U) (n : ℤ) → Spares s (round s n)) where
    pub rounds-Keeps :
        (fuel : ℕ) (s : SocketStream U) (n : ℤ) → Always (Keeps s) (Keeps s) (rounds round fuel s n)
    unfolding rounds
    rounds-Keeps zero s n = stops (Keeps-refl s)
    rounds-Keeps (suc fuel) s n = after-Keeps s (rounds round fuel) (spares s n) (rounds-Keeps fuel)
