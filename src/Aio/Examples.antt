-- ===== src/Aio/Examples.antt =====
-- The theorems about streams at a concrete socket.
use dpapp.Common.{
  ℕ, zero, suc, ◌<◌, ◌≡◌, refl, sym, length-take, take-of_length_le, ap, false, none, some, List,
  [], ◌∷◌, ◌++◌, ◌==◌, ltb, arith, length, take, drop, if◌then◌else◌, inl, inr, Bool-cases,
}
use dpapp.Common.Int.{pos}
use dpapp.Common.Outcome.{Outcome, done, Returns, returns}
use dpapp.Mem.{Block, Alloc}
use dpapp.Buf.{Buf}
use dpapp.Buf.Valid.{readable}
use dpapp.Aio.{Answer, moved, closed, failed, Posted, wait, errno}
use dpapp.Aio.Post.{stopped, complete, buf_post}
use dpapp.Aio.Post.Moves.{Device, Sound, some_moved, all_moved, buf_post-Sound}
use dpapp.Aio.Post.Iov.{Iovec, iov_total, iov_post}
use dpapp.Aio.Post.Iov.Same.{addresses, iov_post-buf_post}
use dpapp.Aio.Stream.Read.{read_some_post, read_must_post}
use dpapp.Aio.Stream.Read.Steps.{IsReady}
use dpapp.Aio.Stream.Read.Some.{ReadStep, read_some_post-ReadStep}
use dpapp.Aio.Stream.Read.Must.{Brings, going_on, with_bytes_of, read_must_post-early}
use dpapp.Aio.Stream.Write.{write_some_post}
use dpapp.Aio.Stream.Write.Steps.{IsSending, WriteStep, write_some_post-WriteStep}
use dpapp.Aio.Stream.Data.{Raw, read_data_post}
use dpapp.Aio.Stream.Data.Rounds.{IsGoing, DataStep, read_data_post-DataStep}
use dpapp.Aio.Stream.{Stm, Reader, Writer, answer, fresh}

-- A socket: a list of what arrives, in parts. At the end of a part the call answers EAGAIN once, and
-- then the next part has arrived. The last part is followed by the end of the connection.
pub socket : ℕ → ℕ → List Block → Answer × List Block
socket n at [] = (closed, [])
socket n at ([] ∷ parts) = (failed 11, parts)
socket n at ((x ∷ xs) ∷ parts) =
    if ltb at n then (moved (x ∷ []), xs ∷ parts) else (failed 22, parts)

-- How many bytes an answer brings, and 1 for another.
tag : Answer → ℕ
tag (moved xs) = length xs
tag closed = 1
tag (failed e) = 1

is_moved : Answer → ℕ
is_moved (moved xs) = 1
is_moved closed = 0
is_moved (failed e) = 0

socket-one : (n at : ℕ) (k : List Block) → tag ((socket n at k).0) ≡ 1
unfolding socket tag
socket-one n at [] = refl
socket-one n at ([] ∷ parts) = refl
socket-one n at ((x ∷ xs) ∷ parts) = elim (Bool-cases (ltb at n)) [
  | inl e ↦ rw e refl
  | inr e ↦ rw e refl
]

socket-fits : (n at : ℕ) (k : List Block) → is_moved ((socket n at k).0) ≡ 1 → at < n
unfolding socket is_moved
socket-fits n at [] h = absurd (omega arith)
socket-fits n at ([] ∷ parts) h = absurd (omega arith)
socket-fits n at ((x ∷ xs) ∷ parts) h = ground arith

pub socket-Device : (n : ℕ) → Device n (λ xs. Unit {0}) (socket n)
unfolding tag is_moved
socket-Device n = record {
  some_moved = λ {at} {k} e. omega (arith, socket-one n at k, ap (λ r. tag (r.0)) e);
  in_room = λ {at} {k} e. omega (
    arith,
    socket-one n at k,
    ap (λ r. tag (r.0)) e,
    socket-fits n at k (ap (λ r. is_moved (r.0)) e),
  );
  keeps_right = λ _ _. tt;
}

-- `dpskt_recv2` on it. A flag other than 0 makes the call fail.
recv : Reader (List Block)
recv = record {
  post = λ flag n k.
      if flag == 0 then buf_post (socket n) n n [] k else done (stopped (errno 22) [] k);
  sound = λ flag n k e h. rw e (buf_post-Sound (socket-Device n) k h tt);
}

buf_post-Sound_example :
    Returns (Sound 2 (λ xs. Unit {0})) (buf_post (socket 2) 2 2 [] ((7 ∷ []) ∷ []))
buf_post-Sound_example = buf_post-Sound (socket-Device 2) ((7 ∷ []) ∷ []) (omega arith) tt

-- A buffer with room for 16 bytes.
abbrev block : Block
block = 13 ∷ 0 ∷ 0 ∷ 0 ∷ 0 ∷ 0 ∷ 0 ∷ 0 ∷ 0 ∷ 0 ∷ 0 ∷ 0 ∷ 0 ∷ 0 ∷ 0 ∷ 0 ∷ 0 ∷ []

abbrev empty : Buf
empty = record {
  utype = 0;
  uflag = 0;
  flag = 0;
  rbeg = 0;
  rend = 0;
  wbeg = 0;
  size = 16;
  data_ref = record { bytes = block; maxs = 17; flag = 0; refc = 1 };
}

abbrev no_memory : Alloc
no_memory = record {
  malloc_buf = false;
  malloc_data = false;
  malloc = λ n. none;
  realloc = λ xs n. none;
  length-malloc = λ n ys e. cc;
  length-realloc = λ xs n ys e. cc;
  take-realloc = λ xs n ys e. cc;
}

-- A stream that asks for 10 bytes, of which 5 arrive first and then 3.
abbrev asking : Stm
asking = record (fresh empty 10) { io_len = 10 }

asking-IsReady : IsReady asking
asking-IsReady = record {
  room = record { valid = omega arith; some_room = omega arith; in_room = omega arith };
  no_flag = refl;
}

abbrev five : Block
five = 1 ∷ 2 ∷ 3 ∷ 4 ∷ 5 ∷ []

abbrev three : Block
three = 6 ∷ 7 ∷ 8 ∷ []

read_some_post-ReadStep_example :
    (p : Posted (List Block)) × (recv.post asking.flag asking.io_len (five ∷ three ∷ []) ≡ done p)
    × Returns (ReadStep asking p) (read_some_post no_memory recv asking (five ∷ three ∷ []))
read_some_post-ReadStep_example =
    read_some_post-ReadStep no_memory asking-IsReady (omega arith) recv (five ∷ three ∷ [])

abbrev after_five : Posted (List Block)
after_five = stopped (pos 5) five (three ∷ [])

abbrev after_three : Posted (List Block)
after_three = stopped (pos 3) three []

five-Brings : Brings recv asking (five ∷ three ∷ []) after_five
unfolding recv buf_post socket
five-Brings = record { posted = refl; counted = refl; some = omega arith; fits = omega arith }

three-Brings : Brings recv (going_on asking five) (three ∷ []) after_three
unfolding recv buf_post socket
three-Brings = record { posted = refl; counted = refl; some = omega arith; fits = omega arith }

read_must_post-early_example :
    (read_must_post recv asking (five ∷ three ∷ [])
      ≡ done (answer after_five (going_on asking five) wait))
    × (read_must_post recv (going_on asking five) (three ∷ [])
        ≡ done (answer after_three (with_bytes_of (going_on asking five) three) (pos 8)))
read_must_post-early_example =
    read_must_post-early recv asking-IsReady (omega arith) refl five-Brings three-Brings
      (omega arith) (omega arith)

-- The delimiter is `\r\n`, and its first byte was read by an earlier round.
abbrev scanning : Stm
scanning = record (fresh (record empty { rend = 1; wbeg = 1 }) 10) {
  io_len = 10;
  total = 1;
  flag = 1;
  until = 13 ∷ 10 ∷ [];
  until_len = 2;
}

-- `dpgfd_read` on the same source, which has no flags.
read : Reader (List Block)
read = record {
  post = λ flag n k. buf_post (socket n) n n [] k;
  sound = λ flag n k e h. buf_post-Sound (socket-Device n) k h tt;
}

abbrev line : Block
line = 10 ∷ 71 ∷ []

-- A descriptor that takes two bytes at a time and collects them.
take_two : Block → Block → Outcome (Posted Block)
take_two src k =
    if ltb 2 (length src)
    then done (stopped (pos (length (take 2 src))) (take 2 src) (k ++ take 2 src))
    else done (complete src (k ++ src))

take_two-Sound :
    (src k : Block)
    → 0 < length src
    → Returns (Sound (length src) (λ xs. xs ≡ take (length xs) src)) (take_two src k)
unfolding take_two
take_two-Sound src k h = elim (Bool-cases (ltb 2 (length src))) [
  | inl e ↦
      let n : length (take 2 src) ≡ 2 = ground (arith, e, length-take 2 src) in
      rw e (
        returns
          (some_moved (omega arith) (ground (arith, e, n)) (sym (ap (λ (i : ℕ). take i src) n))))
  | inr e ↦ rw e (returns (all_moved refl (sym (take-of_length_le (length src) src (omega arith)))))
]

send : Writer Block
send = record { post = take_two; sound = take_two-Sound }

-- A stream that writes the three bytes that its buffer has.
abbrev sending : Stm
sending = record (fresh (record empty { rend = 3; wbeg = 3 }) 3) { io_len = 3 }

write_some_post-WriteStep_example :
    (p : Posted Block) × (send.post (readable sending.buf) [] ≡ done p)
    × Returns (WriteStep sending p) (write_some_post send sending [])
write_some_post-WriteStep_example =
    write_some_post-WriteStep sending-IsSending (omega arith) (omega arith) send []
  where
    sending-IsSending : IsSending sending
    sending-IsSending = record { valid = omega arith; at_rbeg = refl; all_of_it = refl }

-- A block into which the bytes from 4 on are to be read.
abbrev raw : Raw
raw = record { mem = block; io_at = 5; io_len = 7; total = 1; len = 8 }

read_data_post-DataStep_example :
    (p : Posted (List Block)) × (recv.post 0 raw.io_len (five ∷ three ∷ []) ≡ done p)
    × Returns (DataStep 4 raw p) (read_data_post recv raw (five ∷ three ∷ []))
read_data_post-DataStep_example = read_data_post-DataStep raw-IsGoing recv (five ∷ three ∷ [])
  where
    raw-IsGoing : IsGoing 4 raw
    raw-IsGoing = record {
      counted = refl;
      rest = refl;
      some_left = omega arith;
      in_block = omega arith;
    }

-- A call that moves one byte to the first of the addresses.
abbrev one_byte : List ℕ → Block → Answer × Block
one_byte [] k = (failed 22, k)
one_byte (address ∷ more) [] = (failed 11, [])
one_byte (address ∷ more) (x ∷ k) = (moved (x ∷ []), k)

abbrev segments : List Iovec
segments = record { base = 100; len = 1 } ∷ record { base = 200; len = 2 } ∷ []

abbrev vectored : List Iovec → Block → Answer × Block
vectored iov k = one_byte (addresses iov) k

iov_post-buf_post_example :
    let len = iov_total (some segments) (pos 2) in
    (len ≡ 3)
    × (iov_post vectored 3 len segments [] (7 ∷ 8 ∷ [])
        ≡ buf_post (λ at. one_byte (drop at (100 ∷ 200 ∷ 201 ∷ []))) 3 len [] (7 ∷ 8 ∷ []))
iov_post-buf_post_example =
    iov_post-buf_post vectored one_byte (λ iov k. refl) segments 3 (7 ∷ 8 ∷ []) (omega arith)

-- `tee` between two pipes.
abbrev tee : ℕ → Block × Block → Answer × (Block × Block)
tee zero pipes = (failed 22, pipes)
tee (suc n) ([], out) = (failed 11, ([], out))
tee (suc n) (x ∷ held, out) =
    (moved (take (suc n) (x ∷ held)), (x ∷ held, out ++ take (suc n) (x ∷ held)))

tee-copies :
    (n : ℕ) (held out : Block)
    → 0 < n
    → 0 < length held
    → tee n (held, out) ≡ (moved (take n held), (held, out ++ take n held))
tee-copies zero held out h p = absurd (omega arith)
tee-copies (suc n) [] out h p = absurd (omega arith)
tee-copies (suc n) (x ∷ held) out h p = refl
