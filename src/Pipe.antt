-- ===== src/Pipe.antt =====
-- pipe.c: a pipe's buffer, and what reading, writing and closing do under its lock.
pub mod Fifo
pub mod Stream
mod Tests
use modified_xv.Base.{
  ℕ, zero, suc, ◌+◌, ◌%◌, ◌^◌, Bool, true, false, not, ◌&&◌, ◌||◌, List, [], ◌∷◌, ◌==◌,
  if◌then◌else◌, update, add32,
}

abbrev pub pipe_size : ℕ
pipe_size = 512

-- `struct pipe` without its lock. `nread` and `nwrite` are `uint`s that wrap.
pub record Pipe : Type 0 where
  pub buf : ℕ → ℕ
  pub nread : ℕ
  pub nwrite : ℕ
  pub readopen : Bool
  pub writeopen : Bool

-- What `pipealloc` writes into a page.
pub init : (ℕ → ℕ) → Pipe
init page = record { buf = page; nread = 0; nwrite = 0; readopen = true; writeopen = true }

-- `p->nwrite == p->nread + PIPESIZE`
pub is_full : Pipe → Bool
is_full p = p.nwrite == add32 p.nread pipe_size

pub is_empty : Pipe → Bool
is_empty p = p.nread == p.nwrite

-- `p->data[p->nwrite++ % PIPESIZE] = c`
pub put : Pipe → ℕ → Pipe
put p c = record p { buf = update p.buf (p.nwrite % pipe_size) c; nwrite = add32 p.nwrite 1 }

-- `p->nread++`, after the read of `p->data[p->nread % PIPESIZE]`.
pub advance : Pipe → Pipe
advance p = record p { nread = add32 p.nread 1 }

-- The two channels of a pipe, `&p->nread` and `&p->nwrite`.
pub data Channel : Type 0 where
  readers writers : Channel

-- How `pipewrite` ends: it returns `n`; it returns -1 with these bytes not written; or it sleeps
-- on `&p->nwrite` with these bytes left to write, and goes on from there when it is woken.
pub data Written : Type 0 where
  done : Written
  broken : List ℕ → Written
  waits : List ℕ → Written

-- The loop of `pipewrite`, up to its end or its first sleep. In each way out but `broken` the
-- readers have been woken.
pub write : Bool → Pipe → List ℕ → Written × Pipe
unfolding is_full put
write killed p [] = (done, p)
write killed p (c ∷ cs) =
    let rest = write killed (put p c) cs in
    if is_full p
    then (if not p.readopen || killed then (broken (c ∷ cs), p) else (waits (c ∷ cs), p))
    else rest

-- The copying loop of `piperead` for `n` bytes: the bytes read.
pub copy_out : ℕ → Pipe → List ℕ × Pipe
unfolding is_empty advance
copy_out zero p = ([], p)
copy_out (suc n) p =
    let (cs, p') = copy_out n (advance p) in
    if is_empty p then ([], p) else (p.buf (p.nread % pipe_size) ∷ cs, p')

-- How `piperead` ends: with bytes, with -1, or asleep on `&p->nread`.
pub data ReadEnd : Type 0 where
  bytes : List ℕ → ReadEnd
  failed : ReadEnd
  sleeps : ReadEnd

pub read : Bool → Pipe → ℕ → ReadEnd × Pipe
unfolding is_empty copy_out
read killed p n =
    if is_empty p && p.writeopen
    then (if killed then (failed, p) else (sleeps, p))
    else (let (cs, p') = copy_out n p in (bytes cs, p'))

-- `pipeclose`: the pipe, the channel woken, and whether the page is freed.
pub close : Pipe → Bool → Pipe × Channel × Bool
close p true =
    let p' = record p { writeopen = false } in (p', readers, not p'.readopen && not p'.writeopen)
close p false =
    let p' = record p { readopen = false } in (p', writers, not p'.readopen && not p'.writeopen)
