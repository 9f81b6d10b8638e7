-- ===== src/SocketStream/Keeps.antt =====
-- What the parts of `OnEvent` leave alone: whether the stream is closed, and that it closes once.
use mtrpc.Base.{
  tally, tally-append, ℕ, ◌+◌, ◌≡◌, refl, ◌∙◌, arith, Bool, true, false, List, [], ◌∷◌, ◌++◌,
  Option, none, some, if◌then◌else◌, if_intro, ltb,
}
use mtrpc.Buffer.{IoBuffer, get_send_buffer, move_send_ptr, move_recive_ptr}
use mtrpc.Error.{server_readbuffer_full}
use mtrpc.SocketStream.{
  Hander, closed, message_error, Io, again, broken, moved, Effect, ran, del_event, Shared,
  SocketStream, Fault, Result, returned, stopped, ◌>>=◌, did, set_read, set_write, call_if, call,
  run_if, run, on_close, read_loop, write_loop,
}

abbrev pub is_delete : Effect → ℕ
is_delete del_event = 1
is_delete _ = 0

abbrev pub is_closing : Hander → ℕ
is_closing closed = 1
is_closing _ = 0

abbrev pub is_close : Effect → ℕ
is_close (ran h) = is_closing h
is_close _ = 0

module _ {U : Type 0} where
  -- A result has the property `P`, and the stream has the property `S` where a method stops.
  pub data Always {A : Type 0} (S : SocketStream U → Type 0) (P : A → Type 0)
      : Result U A → Type 0 where
    gives : {a : A} → P a → Always S P (returned a)
    stops : {e : Fault} {s : SocketStream U} → S s → Always S P (stopped e s)

  pub bind-Always :
      {A B : Type 0} {S : SocketStream U → Type 0} (P : A → Type 0) (Q : B → Type 0)
      {o : Result U A} (f : A → Result U B)
      → Always S P o
      → ((a : A) → P a → Always S Q (f a))
      → Always S Q (o >>= f)
  bind-Always P Q f (gives {a} p) k = k a p
  bind-Always P Q f (stops p) k = stops p

  pub if-Always :
      {A : Type 0} {S : SocketStream U → Type 0} (P : A → Type 0) (b : Bool) {x y : Result U A}
      → Always S P x
      → Always S P y
      → Always S P (if b then x else y)
  if-Always P true p q = p
  if-Always P false p q = q

  pub map-Always :
      {A : Type 0} {S T : SocketStream U → Type 0} {P Q : A → Type 0} {o : Result U A}
      → ((a : A) → P a → Q a)
      → ((s : SocketStream U) → S s → T s)
      → Always S P o
      → Always T Q o
  map-Always f g (gives {a} p) = gives (f a p)
  map-Always f g (stops {s = s} p) = stops (g s p)

  -- The second state is closed exactly if the first one is, and nothing was closed in between.
  pub record Keeps (s t : SocketStream U) : Type 0 where
    pub same_closed : t.is_closed ≡ s.is_closed
    pub deletes : tally is_delete t.log ≡ tally is_delete s.log
    pub closes : tally is_close t.log ≡ tally is_close s.log

  pub Keeps-refl : (s : SocketStream U) → Keeps s s
  Keeps-refl s = record { same_closed = refl; deletes = refl; closes = refl }

  pub Keeps-trans : {s t u : SocketStream U} → Keeps s t → Keeps t u → Keeps s u
  Keeps-trans a b = record {
    same_closed = b.same_closed ∙ a.same_closed;
    deletes = b.deletes ∙ a.deletes;
    closes = b.closes ∙ a.closes;
  }

  -- An effect that is neither a deletion nor a closing.
  pub did-Keeps :
      (s : SocketStream U) (x : Shared U) (e : Effect)
      → is_delete e ≡ 0
      → is_close e ≡ 0
      → Keeps s (did (record s { shared = x }) e)
  did-Keeps s x e d c = record {
    same_closed = refl;
    deletes = omega (arith, tally-append is_delete s.log (e ∷ []));
    closes = omega (arith, tally-append is_close s.log (e ∷ []));
  }

  -- The event is deleted once the stream is closed, and the closure `c` has run with it.
  pub record IsSettled (c : ℕ) (s : SocketStream U) : Type 0 where
    pub deletes : tally is_delete s.log ≡ (if s.is_closed then 1 else 0)
    pub closes : tally is_close s.log ≡ (if s.is_closed then c else 0)

  pub Keeps-IsSettled : {c : ℕ} {s t : SocketStream U} → Keeps s t → IsSettled c s → IsSettled c t
  Keeps-IsSettled k v = record {
    deletes = rw (k.same_closed) (k.deletes ∙ v.deletes);
    closes = rw (k.same_closed) (k.closes ∙ v.closes);
  }

  module _ (handers : Hander → Option (Shared U → Shared U)) where
    call_if-Keeps :
        (h : Hander) (o : Option (Shared U → Shared U)) (s : SocketStream U)
        → is_closing h ≡ 0
        → Keeps s (call_if h o s)
    call_if-Keeps h none s c = Keeps-refl s
    call_if-Keeps h (some f) s c = did-Keeps s (f s.shared) (ran h) refl c

    pub run_if-Keeps :
        (h : Hander) (s : SocketStream U) → is_closing h ≡ 0 → Keeps s (run_if handers h s)
    unfolding run_if
    run_if-Keeps h s c = call_if-Keeps h (handers h) s c

    call-Keeps :
        (h : Hander) (o : Option (Shared U → Shared U)) (s : SocketStream U)
        → is_closing h ≡ 0
        → Always (Keeps s) (Keeps s) (call h o s)
    call-Keeps h none s c = stops (Keeps-refl s)
    call-Keeps h (some f) s c = gives (did-Keeps s (f s.shared) (ran h) refl c)

    pub run-Keeps :
        (h : Hander) (s : SocketStream U)
        → is_closing h ≡ 0
        → Always (Keeps s) (Keeps s) (run handers h s)
    unfolding run
    run-Keeps h s c = call-Keeps h (handers h) s c

    -- How often `handerClose` runs when it runs.
    abbrev pub has_closed : Option (Shared U → Shared U) → ℕ
    has_closed none = 0
    has_closed (some f) = 1

    pub on_close-IsSettled :
        (s : SocketStream U)
        → IsSettled (has_closed (handers closed)) s
        → IsSettled (has_closed (handers closed)) (on_close handers s)
    unfolding on_close run_if
    on_close-IsSettled s v = close_via s.is_closed refl
      where
        fresh :
            (o : Option (Shared U → Shared U))
            → tally is_delete s.log ≡ 0
            → tally is_close s.log ≡ 0
            → IsSettled (has_closed o) (
                did
                  (call_if closed o (record s { is_closed = true; is_connected = false }))
                  del_event)
        fresh none d c = record {
          deletes = omega (arith, tally-append is_delete s.log (del_event ∷ []), d);
          closes = omega (arith, tally-append is_close s.log (del_event ∷ []), c);
        }
        fresh (some f) d c = record {
          deletes = omega (
            arith,
            tally-append is_delete (s.log ++ ran closed ∷ []) (del_event ∷ []),
            tally-append is_delete s.log (ran closed ∷ []),
            d,
          );
          closes = omega (
            arith,
            tally-append is_close (s.log ++ ran closed ∷ []) (del_event ∷ []),
            tally-append is_close s.log (ran closed ∷ []),
            c,
          );
        }

        close_via :
            (b : Bool)
            → s.is_closed ≡ b
            → IsSettled (has_closed (handers closed)) (
                if b
                then s
                else did
                    (call_if closed
                      (handers closed)
                      (record s { is_closed = true; is_connected = false }))
                    del_event)
        close_via true e = v
        close_via false e = fresh (handers closed) (v.deletes ∙ rw e) (v.closes ∙ rw e)

    overfull-Keeps :
        (s : SocketStream U)
        → Always
            (Keeps s)
            (λ (r : SocketStream U × Option ℕ). Keeps s r.0)
            (run handers (message_error server_readbuffer_full) s >>= λ t. returned (t, none))
    overfull-Keeps s =
        bind-Always (Keeps s) _ (λ t. returned (t, none))
          (run-Keeps (message_error server_readbuffer_full) s refl) (λ t k. gives k)

    set_read-Keeps :
        (s : SocketStream U) (b : IoBuffer) {t : SocketStream U}
        → Keeps (set_read s b) t
        → Keeps s t
    set_read-Keeps s b v = record {
      same_closed = v.same_closed;
      deletes = v.deletes;
      closes = v.closes;
    }

    pub read_loop-Keeps :
        (ios : List Io) (s : SocketStream U) (n : ℕ)
        → Always
            (Keeps s)
            (λ (r : SocketStream U × Option ℕ). Keeps s r.0)
            (read_loop handers ios s n)
    unfolding read_loop
    read_loop-Keeps [] s n = if-Always _ _ (gives (Keeps-refl s)) (overfull-Keeps s)
    read_loop-Keeps (again ∷ ios) s n = if-Always _ _ (gives (Keeps-refl s)) (overfull-Keeps s)
    read_loop-Keeps (broken ∷ ios) s n = if-Always _ _ (gives (Keeps-refl s)) (overfull-Keeps s)
    read_loop-Keeps (moved k ∷ ios) s n =
        if-Always _ _
          (if-Always _ _
            (map-Always (λ r v. set_read-Keeps s _ v) (λ t v. set_read-Keeps s _ v)
              (read_loop-Keeps ios (set_read s (move_recive_ptr s.shared.readbuf.io k)) (n + k)))
            (gives (Keeps-refl s)))
          (overfull-Keeps s)

    pub write_loop-Keeps :
        (ios : List Io) (s : SocketStream U) (n : ℕ) → Keeps s (write_loop handers ios s n).0
    unfolding write_loop
    write_loop-Keeps [] s n = Keeps-refl s
    write_loop-Keeps (again ∷ ios) s n = Keeps-refl s
    write_loop-Keeps (broken ∷ ios) s n =
        if_intro (λ (r : SocketStream U × Option ℕ). Keeps s r.0)
          (get_send_buffer s.shared.writebuf.io).0 (Keeps-refl s) (Keeps-refl s)
    write_loop-Keeps (moved k ∷ ios) s n =
        let P = λ (r : SocketStream U × Option ℕ). Keeps s r.0 in
        let ih =
          write_loop-Keeps ios (set_write s (move_send_ptr s.shared.writebuf.io k)) (n + k) in
        if_intro P (get_send_buffer s.shared.writebuf.io).0
          (if_intro P (ltb 0 k)
            (record { same_closed = ih.same_closed; deletes = ih.deletes; closes = ih.closes })
            (Keeps-refl s))
          (Keeps-refl s)
