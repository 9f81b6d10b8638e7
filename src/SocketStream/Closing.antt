-- ===== src/SocketStream/Closing.antt =====
-- A stream closes once, whatever events come.
use mtrpc.Base.{
  ℕ, ◌≡◌, refl, Bool, true, false, not, ◌&&◌, ◌||◌, List, [], ◌∷◌, Option, none, some, ltb,
  if_intro,
}
use mtrpc.Event.{Mask}
use mtrpc.SocketStream.{
  Hander, readable, writeable, closed, read_timed_out, write_timed_out, Io, mod_event, release_ref,
  Shared, SocketStream, Result, returned, ◌>>=◌, Methods, run_if, write_loop, received, rest_write,
  sent, nothing_to_send, on_readable, on_writeable, close_soon, time_out, time_outs, settle,
  transfer, connect_first, on_event,
}
use mtrpc.SocketStream.Keeps.{
  Keeps, Keeps-refl, Keeps-trans, did-Keeps, IsSettled, Keeps-IsSettled, Always, gives, bind-Always,
  if-Always, map-Always, run_if-Keeps, has_closed, read_loop-Keeps, write_loop-Keeps,
}

module _ {U : Type 0} (handers : Hander → Option (Shared U → Shared U)) (m : Methods U) where
  -- The methods of a subclass close the stream in `on_close` alone, and there once.
  pub record IsTame : Type 0 where
    pub connects : (s : SocketStream U) → Keeps s (m.on_connect s).0
    pub receives : (s : SocketStream U) (n : ℕ) → Always (Keeps s) (Keeps s) (m.on_recived s n)
    pub sends : (s : SocketStream U) (n : ℕ) → Always (Keeps s) (Keeps s) (m.on_sended s n)
    pub closes :
        (s : SocketStream U)
        → IsSettled (has_closed handers (handers closed)) s
        → IsSettled (has_closed handers (handers closed)) (m.on_close s)

  -- Events one after the other, each with what the socket answers to it.
  unfoldable pub on_events :
      List (List Io × List Io × Mask) → SocketStream U → Result U (SocketStream U)
  on_events [] s = returned s
  on_events (e ∷ es) s = on_event handers m (e.0) (e.1) (e.2) s >>= on_events es

  module _ (tame : IsTame) where
    Always-trans :
        {s t : SocketStream U} {o : Result U (SocketStream U)}
        → Keeps s t
        → Always (Keeps t) (Keeps t) o
        → Always (Keeps s) (Keeps s) o
    Always-trans k a = map-Always (λ u l. Keeps-trans k l) (λ u l. Keeps-trans k l) a

    -- Of a result with the stream first: where the method keeps the stream, it stays settled.
    Always-Settled :
        (s : SocketStream U) {o : Result U (SocketStream U × Bool)}
        → IsSettled (has_closed handers (handers closed)) s
        → Always (Keeps s) (λ (q : SocketStream U × Bool). Keeps s q.0) o
        → Always
            (IsSettled (has_closed handers (handers closed)))
            (λ (q : SocketStream U × Bool). Keeps s q.0)
            o
    Always-Settled s v a = map-Always (λ q l. l) (λ t l. Keeps-IsSettled l v) a

    received-Keeps :
        (s : SocketStream U) (r : SocketStream U × Option ℕ)
        → Keeps s r.0
        → Always (Keeps s) (λ (q : SocketStream U × Bool). Keeps s q.0) (received handers m r)
    received-Keeps s (t, none) k = gives k
    received-Keeps s (t, some n) k =
        bind-Always (Keeps s) _ (λ u. returned (u, true))
          (if-Always _ (ltb 0 n) (Always-trans k (tame.receives t n)) (gives k)) (λ u l. gives l)

    rest_write-Keeps : (s : SocketStream U) → Keeps s (rest_write handers m s)
    rest_write-Keeps s =
        if_intro (Keeps s) (nothing_to_send s)
          (did-Keeps s s.shared (mod_event true false) refl refl) (Keeps-refl s)

    sent-Keeps :
        (s : SocketStream U) (r : SocketStream U × Option ℕ)
        → Keeps s r.0
        → Always (Keeps s) (λ (q : SocketStream U × Bool). Keeps s q.0) (sent handers m r)
    sent-Keeps s (t, none) k = gives k
    sent-Keeps s (t, some n) k =
        bind-Always (Keeps s) _ (λ u. returned (rest_write handers m u, true))
          (if-Always _ (ltb 0 n) (Always-trans k (tame.sends t n)) (gives k))
          (λ u l. gives (Keeps-trans l (rest_write-Keeps u)))

    on_readable-Keeps :
        (ios : List Io) (s : SocketStream U)
        → Always
            (Keeps s)
            (λ (q : SocketStream U × Bool). Keeps s q.0)
            (on_readable handers m ios s)
    unfolding on_readable
    on_readable-Keeps ios s =
        let k = run_if-Keeps handers readable s refl in
        bind-Always (λ (r : SocketStream U × Option ℕ). Keeps s r.0) _ (received handers m)
          (map-Always (λ r l. Keeps-trans k l) (λ t l. Keeps-trans k l)
            (read_loop-Keeps handers ios (run_if handers readable s) 0))
          (received-Keeps s)

    on_writeable-Keeps :
        (ios : List Io) (s : SocketStream U)
        → Always
            (Keeps s)
            (λ (q : SocketStream U × Bool). Keeps s q.0)
            (on_writeable handers m ios s)
    unfolding on_writeable
    on_writeable-Keeps ios s =
        let r = run_if handers writeable (rest_write handers m s) in
        let k = Keeps-trans (rest_write-Keeps s) (run_if-Keeps handers writeable _ refl) in
        if-Always _ (nothing_to_send r) (gives k) (
          sent-Keeps s (write_loop handers ios r 0)
            (Keeps-trans k (write_loop-Keeps handers ios r 0)))

    time_out-Keeps :
        (b : Bool) (h : Hander) (s : SocketStream U)
        → Keeps s (run_if handers h s)
        → Keeps s (time_out handers m b h s)
    time_out-Keeps b h s k =
        if_intro (Keeps s) b
          (Keeps-trans k
            (did-Keeps (run_if handers h s) (run_if handers h s).shared release_ref refl refl))
          (Keeps-refl s)

    pub time_outs-Keeps : (mask : Mask) (s : SocketStream U) → Keeps s (time_outs handers m mask s)
    unfolding time_outs
    time_outs-Keeps mask s =
        Keeps-trans
          (time_out-Keeps mask.read_time_out read_timed_out s
            (run_if-Keeps handers read_timed_out s refl))
          (time_out-Keeps mask.write_time_out write_timed_out _
            (run_if-Keeps handers write_timed_out _ refl))

    -- The event is deleted, and `handerClose` has run, exactly if the stream is closed.
    abbrev pub Settled : SocketStream U → Type 0
    Settled = IsSettled (has_closed handers (handers closed))

    close_soon-IsSettled : (s : SocketStream U) → Settled s → Settled (close_soon handers m s)
    unfolding close_soon
    close_soon-IsSettled s v = if_intro Settled (nothing_to_send s) (tame.closes s v) (
        Keeps-IsSettled
          (did-Keeps s (record (s.shared) { close_when_empty = true }) (mod_event true true) refl
            refl)
          v)

    settle-IsSettled :
        (mask : Mask) (s : SocketStream U) (a b : Bool)
        → Settled s
        → Settled (settle handers m mask s a b)
    unfolding settle
    settle-IsSettled mask s a b v =
        let w = Keeps-IsSettled (time_outs-Keeps mask s) v in
        let t = time_outs handers m mask s in
        if_intro Settled (not a || not b || t.shared.close_when_empty) (close_soon-IsSettled t w) w

    transfer-IsSettled :
        (readvs writevs : List Io) (mask : Mask) (s : SocketStream U)
        → Settled s
        → Always Settled Settled (transfer handers m readvs writevs mask s)
    unfolding transfer
    transfer-IsSettled readvs writevs mask s v =
        bind-Always (λ (q : SocketStream U × Bool). Keeps s q.0) _ _
          (Always-Settled s v
            (if-Always _ mask.event_read (on_readable-Keeps readvs s) (gives (Keeps-refl s))))
          (λ r k.
            let u = Keeps-IsSettled k v in
            bind-Always (λ (q : SocketStream U × Bool). Keeps (r.0) q.0) _ _
              (Always-Settled (r.0) u (
                if-Always _ mask.event_write (on_writeable-Keeps writevs (r.0))
                  (gives (Keeps-refl (r.0)))))
              (λ w l. gives (settle-IsSettled mask (w.0) (r.1) (w.1) (Keeps-IsSettled l u))))

    connect_first-IsSettled :
        (mask : Mask) (s : SocketStream U) → Settled s → Settled (connect_first handers m mask s).0
    unfolding connect_first
    connect_first-IsSettled mask s v =
        if_intro (λ (r : SocketStream U × Bool). Settled r.0)
          (not s.is_connected && (mask.event_read || mask.event_write))
          (let k = tame.connects s in
            if_intro (λ (r : SocketStream U × Bool). Settled r.0) (m.on_connect s).1
              (Keeps-IsSettled
                (record { same_closed = k.same_closed; deletes = k.deletes; closes = k.closes }) v)
              (Keeps-IsSettled k v))
          v

    pub on_event-IsSettled :
        (readvs writevs : List Io) (mask : Mask) (s : SocketStream U)
        → Settled s
        → Always Settled Settled (on_event handers m readvs writevs mask s)
    unfolding on_event
    on_event-IsSettled readvs writevs mask s v =
        let c = connect_first-IsSettled mask s v in
        if-Always Settled s.is_closed (gives v) (
          if-Always Settled mask.event_close (gives (close_soon-IsSettled s v)) (
            if-Always Settled mask.event_err (gives (tame.closes s v)) (
              if-Always Settled (connect_first handers m mask s).1
                (transfer-IsSettled readvs writevs mask (connect_first handers m mask s).0 c)
                (gives (tame.closes (connect_first handers m mask s).0 c)))))

    -- Whatever events come to a stream that has not done anything yet: `DelEventAsync` is called
    -- once if the stream is closed in the end and not otherwise, and so is `handerClose`, if it is
    -- set. This holds of the stream that `OnEvent` leaves after the last event, and, if a call does
    -- not return, of the stream as it is where that call stops.
    pub closed_once :
        (es : List (List Io × List Io × Mask)) (s : SocketStream U)
        → s.is_closed ≡ false
        → s.log ≡ []
        → Always Settled Settled (on_events es s)
    unfolding on_events
    closed_once es s open_ empty =
        go es s (record { deletes = rw (open_, empty); closes = rw (open_, empty) })
      where
        go :
            (es : List (List Io × List Io × Mask)) (s : SocketStream U)
            → Settled s
            → Always Settled Settled (on_events es s)
        go [] s v = gives v
        go (e ∷ es) s v =
            bind-Always Settled Settled (on_events es) (on_event-IsSettled (e.0) (e.1) (e.2) s v)
              (λ t w. go es t w)
