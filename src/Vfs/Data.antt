-- ===== src/Vfs/Data.antt =====
-- Reading what was written: `ramfs_write` and `ramfs_read` of kernel/fs/ramfs.c.
use matryoshka_os.Prelude.{
  ℕ, ◌+◌, ◌-◌, ◌%◌, ◌^◌, ◌≤◌, ◌<◌, ◌≡◌, ◌≢◌, refl, ap, ◌∙◌, ◌⊎◌, true, false, arith, ltb, leb, some,
  ==_self, ==_ne,
}
use matryoshka_os.Vfs.{Fs, vfs_file, has_flag}
use matryoshka_os.Vfs.Ramfs.{read, write, store, ensure_capacity}
use matryoshka_os.Strings.{memcpy}
use matryoshka_os.Strings.Move.{memcpy_inside}

-- The node `p` is a file with data.
pub record HasData (s : Fs) (p : ℕ) : Type 0 where
  pub is_file : has_flag (s.node p).flags vfs_file ≡ true
  pub payload : (s.node p).fs_data ≢ 0
  pub some_data : (s.file (s.node p).fs_data).data_at ≢ 0

-- The address of a file's contents.
abbrev pub contents : Fs → ℕ → ℕ
contents s p = (s.file (s.node p).fs_data).data_at

write-store :
    (fuel : ℕ) (s : Fs) (p off size buf : ℕ)
    → HasData s p
    → off + size < 2 ^ 32
    → off + size ≤ (s.file (s.node p).fs_data).capacity
    → write fuel s p off size buf ≡ some (store s p off size buf)
unfolding write ensure_capacity
write-store fuel s p off size buf d small room =
    let end : (off + size) % 2 ^ 32 ≡ off + size = omega arith in
    let fits : leb (off + size) (s.file (s.node p).fs_data).capacity ≡ true = ground arith in
    rw (end, d.is_file, ==_ne (s.node p).fs_data 0 d.payload, fits) refl

-- A buffer of `size` bytes and a file's contents from `off` on do not overlap.
abbrev pub AreApart : Fs → ℕ → ℕ → ℕ → ℕ → Type 0
AreApart s p off size buf = (buf + size ≤ contents s p + off) ⊎ (contents s p + off + size ≤ buf)

-- What `ramfs_read` gives, where the range is inside the file.
read_bytes :
    (s : Fs) (p off size buf : ℕ)
    → HasData s p
    → 0 < size
    → off + size ≤ (s.node p).size
    → ((read s p off size buf).0 ≡ size)
      × ((read s p off size buf).1.heap.byte ≡ memcpy s.heap.byte buf (contents s p + off) size)
unfolding read
read_bytes s p off size buf d pos inside =
    let whole : ltb ((s.node p).size - off) size ≡ false = ground arith in
    let within : leb (s.node p).size off ≡ false = ground arith in
    rw
      (
        d.is_file,
        ==_ne (s.node p).fs_data 0 d.payload,
        within,
        ==_ne (contents s p) 0 d.some_data,
        whole,
      )
      (refl, refl)

module _ (s : Fs) (p off size buf : ℕ) where
  stored : Fs
  stored = (store s p off size buf).1

  store_result : store s p off size buf ≡ (size, stored)
  unfolding store stored
  store_result = refl

  stored_bytes : stored.heap.byte ≡ memcpy s.heap.byte (contents s p + off) buf size
  unfolding store stored
  stored_bytes = refl

  contents-stored : contents stored p ≡ contents s p
  unfolding store stored
  contents-stored = rw (==_self p) refl

  stored-HasData : HasData s p → HasData stored p
  unfolding store stored
  stored-HasData d = record {
    is_file = rw (==_self p) d.is_file;
    payload = rw (==_self p) d.payload;
    some_data = rw (==_self p) d.some_data;
  }

  stored_size : off + size < 2 ^ 32 → off + size ≤ (stored.node p).size
  unfolding store stored
  stored_size small = rw (==_self p) (ground arith)

-- After `ramfs_write` of a buffer into a file whose capacity has room for it, `ramfs_read` of the
-- same range into another buffer gets every byte that was written: both return the size (the
-- buffers do not overlap the file's contents; neither the offset with the size nor the size wraps).
pub read-write :
    (fuel : ℕ) (s : Fs) (p off size from to : ℕ)
    → HasData s p
    → 0 < size
    → off + size < 2 ^ 32
    → off + size ≤ (s.file (s.node p).fs_data).capacity
    → AreApart s p off size from
    → AreApart s p off size to
    → (s' : Fs) × ((write fuel s p off size from ≡ some (size, s'))
        × (((read s' p off size to).0 ≡ size)
            × ((i : ℕ) (lt : i < size)
                → (read s' p off size to).1.heap.byte (to + i) ≡ s.heap.byte (from + i))))
read-write fuel s p off size from to d pos small room apart apart' = (
  after,
  (
    write-store fuel s p off size from d small room ∙ ap some (store_result s p off size from),
    (
      got.0,
      λ i lt.
          ap (λ (m : ℕ → ℕ). m (to + i)) got.1
          ∙ memcpy_inside after.heap.byte to (contents after p + off) size i (to_apart apart') lt
          ∙ ap (λ (m : ℕ → ℕ). m (contents after p + off + i)) (stored_bytes s p off size from)
          ∙ ap (λ (x : ℕ). memcpy s.heap.byte (contents s p + off) from size (x + off + i))
              (contents-stored s p off size from)
          ∙ memcpy_inside s.heap.byte (contents s p + off) from size i (ground arith) lt,
    ),
  ),
)
  where
    after : Fs
    after = stored s p off size from

    got :
        ((read after p off size to).0 ≡ size)
        × ((read after p off size to).1.heap.byte
            ≡ memcpy after.heap.byte to (contents after p + off) size)
    got =
        read_bytes after p off size to (stored-HasData s p off size from d) pos
          (stored_size s p off size from small)

    to_apart :
        AreApart s p off size to
        → (to < contents after p + off) ⊎ (contents after p + off + size ≤ to)
    to_apart h = ground (arith, contents-stored s p off size from)
