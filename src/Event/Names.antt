-- ===== src/Event/Names.antt =====
-- `EventToStr` and `StatusToStr` of mio/mio_event.cpp, which write into buffers of 64 and of 256
-- bytes.
use mtrpc.Base.{
  ℕ, ◌+◌, ◌≤◌, ◌<◌, arith, Bool, true, false, if◌then◌else◌, [], ◌++◌, length, length-append,
}
use mtrpc.Text.{Bytes, codes}
use mtrpc.Event.Epoll.{EpollEvents, set_event}
use mtrpc.Event.Schedule.{Status}

-- `if(flag) { strncpy(buf, name, sizeof(name)); buf += sizeof(name) - 1; }`
abbrev pub part : Bool → Bytes → Bytes → Bytes
part b name rest = if b then name ++ rest else rest

unfoldable pub event_to_str : EpollEvents → Bytes
event_to_str e = part e.et (codes "_ET") (
    part e.readable (codes "_IN") (
      part e.pri (codes "_PRI") (
        part e.out (codes "_OUT") (
          part e.rdnorm (codes "_RDNORM") (
            part e.rdband (codes "_RDBAND") (
              part e.wrnorm (codes "_WRNORM") (
                part e.wrband (codes "_WRBAND") (
                  part e.msg (codes "_MSG") (
                    part e.err (codes "_ERR") (
                      part e.hup (codes "_HUP") (
                        part e.rdhup (codes "_RDHUP")
                          (part e.oneshot (codes "_ONESHOT") []))))))))))))

unfoldable pub status_to_str : Status → Bytes
status_to_str s = part s.pending (codes "PEND|") (
    part s.processing (codes "PROC|") (
      part s.mask.event_read (codes "RD|") (
        part s.mask.event_write (codes "WR|") (
          part s.mask.event_close (codes "CLOSE|") (
            part s.mask.read_time_out (codes "RDOUT|") (
              part s.mask.write_time_out (codes "WROUT|")
                (part s.mask.event_err (codes "ERR|") [])))))))

length-part : (b : Bool) (s r : Bytes) (n : ℕ) → length r ≤ n → length (part b s r) ≤ length s + n
length-part true s r n h = omega (arith, length-append s r)
length-part false s r n h = omega arith

-- The texts fit into their buffers with the NUL behind them: that of the events that `SetEvent`
-- registers into 64 bytes, and that of any status into 256.
pub names_fit :
    (r w : Bool) (s : Status)
    → (length (event_to_str (set_event r w)) < 64) × (length (status_to_str s) < 256)
unfolding event_to_str status_to_str
names_fit r w s = (ground arith, status_fits)
  where
    status_fits : length (status_to_str s) < 256
    status_fits = omega (
      arith,
      length-part s.pending (codes "PEND|") _ 36 (
          length-part s.processing (codes "PROC|") _ 31 (
            length-part s.mask.event_read (codes "RD|") _ 28 (
              length-part s.mask.event_write (codes "WR|") _ 25 (
                length-part s.mask.event_close (codes "CLOSE|") _ 19 (
                  length-part s.mask.read_time_out (codes "RDOUT|") _ 13 (
                    length-part s.mask.write_time_out (codes "WROUT|") _ 7
                      (length-part s.mask.event_err (codes "ERR|") [] 3 (omega arith)))))))),
    )
