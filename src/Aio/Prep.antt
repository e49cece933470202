-- ===== src/Aio/Prep.antt =====
-- dpasc_epoll.c: what the operations on a descriptor check before they are posted, and the events that
-- they wait for.
use dpapp.Common.{
  ℕ, ◌-◌, ◌%◌, ◌^◌, Bool, true, false, ◌||◌, Option, none, some, List, ltb, if◌then◌else◌,
}
use dpapp.Common.Int.{ℤ, pos, negsuc, ltb_ℤ}
use dpapp.Aio.{continue, inval}
use dpapp.Aio.Post.Iov.{Iovec, iov_total}

-- What a `prep` leaves in `out` and in its `dpaio_arg_t`: the events, and the length, the flags and the
-- total. `none` of the argument is NULL, the field is not set.
pub record Arg : Type 0 where
  pub want : ℕ
  pub inva : ℕ
  pub len : ℤ
  pub flag : ℤ
  pub total : ℤ

abbrev pub evt_in : ℕ
evt_in = 1

abbrev pub evt_out : ℕ
evt_out = 4

abbrev is_null : {A : Type 0} → Option A → Bool
is_null none = true
is_null (some a) = false

-- The pointer and the length are checked after they are stored.
abbrev buf_arg : ℕ → Option ℕ → ℤ → ℤ → Arg → ℤ × Arg
buf_arg want ptr len flag arg = (
  (if is_null ptr || ltb_ℤ len (pos 1) then inval else continue),
  record arg { want = want; inva = 0; len = len; flag = flag },
)

abbrev gfd_read_prep : Option ℕ → ℤ → Arg → ℤ × Arg
gfd_read_prep ptr len = buf_arg evt_in ptr len (pos 0)

abbrev gfd_write_prep : Option ℕ → ℤ → Arg → ℤ × Arg
gfd_write_prep ptr len = buf_arg evt_out ptr len (pos 0)

abbrev skt_recv_prep : Option ℕ → ℤ → ℤ → Arg → ℤ × Arg
skt_recv_prep ptr len flag = buf_arg evt_in ptr len flag

abbrev skt_recv2_prep : Option ℕ → ℤ → Arg → ℤ × Arg
skt_recv2_prep ptr len = buf_arg evt_in ptr len (pos 0)

abbrev skt_send_prep : Option ℕ → ℤ → ℤ → Arg → ℤ × Arg
skt_send_prep ptr len flag = buf_arg evt_out ptr len flag

abbrev skt_send2_prep : Option ℕ → ℤ → Arg → ℤ × Arg
skt_send2_prep ptr len = buf_arg evt_out ptr len (pos 0)

-- A `size_t` as an `int`.
abbrev pub int_of : ℕ → ℤ
int_of n = if ltb (n % 2 ^ 32) (2 ^ 31) then pos (n % 2 ^ 32) else negsuc (2 ^ 32 - 1 - n % 2 ^ 32)

-- The total of the segments as an `int`, which must not be 0.
abbrev with_total : ℕ → Option (List Iovec) → ℤ → Arg → ℤ × Arg
with_total want iov count arg =
    let total = int_of (iov_total iov count) in
    (
      (if (ltb_ℤ total (pos 0) || ltb_ℤ (pos 0) total) then continue else inval),
      record arg { want = want; inva = 0; total = total },
    )

abbrev gfd_readv_prep : Option (List Iovec) → ℤ → Arg → ℤ × Arg
gfd_readv_prep iov len arg = with_total evt_in iov len (record arg { len = len })

abbrev gfd_writev_prep : Option (List Iovec) → ℤ → Arg → ℤ × Arg
gfd_writev_prep iov len arg = with_total evt_out iov len (record arg { len = len })

-- `none` is a `msghdr` that is NULL; of another, its segments and their number.
abbrev skt_recvmsg_prep : Option (Option (List Iovec) × ℤ) → ℤ → Arg → ℤ × Arg
skt_recvmsg_prep none flag arg = (inval, record arg { want = evt_in; inva = 0; flag = flag })
skt_recvmsg_prep (some (iov, count)) flag arg =
    with_total evt_in iov count (record arg { flag = flag })

abbrev skt_sendmsg_prep : Option (Option (List Iovec) × ℤ) → ℤ → Arg → ℤ × Arg
skt_sendmsg_prep none flag arg = (inval, record arg { want = evt_out; inva = 0; flag = flag })
skt_sendmsg_prep (some (iov, count)) flag arg =
    with_total evt_out iov count (record arg { flag = flag })
