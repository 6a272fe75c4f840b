-- ===== src/Dst/Files/Contents.antt =====
-- What a write of crates/stratamoto-dst/src/fs.rs leaves in a file.
use stratamoto.Base.{
  ℕ, ◌+◌, ◌-◌, ◌≤◌, ◌<◌, ◌≡◌, ◌↔◌, inl, inr, refl, ap, sym, ◌∙◌, true, false, List, ◌++◌, length,
  take, drop, get_elem?, some, leb, ltb, Bool-cases, ok, panic, arith, append_assoc, append-nil,
  take-drop, take_all, drop_all, length-take, length-drop, take-append, drop-append, length-append,
  get_elem?-set_self, get_elem?-lt-length,
}
use stratamoto.Dst.Files.{
  File, INode, FileSystem, min, read_bytes, write_bytes, data_of, put_data, read_at, write_all_at,
}

-- The data with a buffer in place of what stood from an offset on.
abbrev pub spliced : List ℕ → List ℕ → ℕ → List ℕ
spliced contents buf offset = take offset contents ++ (buf ++ drop (offset + length buf) contents)

min-le : (a b : ℕ) → a ≤ b → min a b ≡ a
unfolding min
min-le a b h = ground arith

le-min : (a b : ℕ) → b ≤ a → min a b ≡ b
unfolding min
le-min a b h = ground arith

-- A write that stays within the contents.
write_within :
    (contents buf : List ℕ) (offset : ℕ)
    → offset + length buf ≤ length contents
    → write_bytes contents buf offset ≡ ok (spliced contents buf offset)
unfolding write_bytes
write_within contents buf offset h =
    let n = length buf in
    let end : min (length contents) (offset + n) ≡ offset + n =
      le-min (length contents) (offset + n) h in
    let after : ltb (offset + n) offset ≡ false = grind arith in
    let len : offset + n - offset ≡ n = omega arith in
    let whole : ltb n n ≡ false = grind arith in
    rw (end, after, len, whole, take_all n buf (omega arith))
      (ap ok (append_assoc (take offset contents) buf (drop (offset + n) contents)))

-- A write past the end of the contents.
write_past :
    (contents buf : List ℕ) (offset : ℕ)
    → offset ≤ length contents
    → length contents < offset + length buf
    → write_bytes contents buf offset ≡ ok (spliced contents buf offset)
unfolding write_bytes
write_past contents buf offset h past =
    let n = length buf in
    let m = length contents in
    let end : min m (offset + n) ≡ m = min-le m (offset + n) (omega arith) in
    let after : ltb m offset ≡ false = grind arith in
    let part : ltb (m - offset) n ≡ true = grind arith in
    rw
      (
        end,
        after,
        part,
        drop_all m contents (omega arith),
        drop_all (offset + n) contents (omega arith),
      )
      (ap ok (
        ap (λ xs. xs ++ drop (m - offset) buf)
          (append-nil (take offset contents ++ take (m - offset) buf))
        ∙ append_assoc (take offset contents) (take (m - offset) buf) (drop (m - offset) buf)
        ∙ ap (λ xs. take offset contents ++ xs)
            (take-drop (m - offset) buf ∙ sym (append-nil buf))))

write_bytes-spliced :
    (contents buf : List ℕ) (offset : ℕ)
    → offset ≤ length contents
    → write_bytes contents buf offset ≡ ok (spliced contents buf offset)
write_bytes-spliced contents buf offset h =
    elim (Bool-cases (leb (offset + length buf) (length contents))) [
      | inl within ↦ write_within contents buf offset (grind arith)
      | inr past ↦ write_past contents buf offset h (grind arith)
    ]

-- The contents are as long as they were, or reach to the end of the buffer.
length-spliced :
    (contents buf : List ℕ) (offset : ℕ)
    → offset ≤ length contents
    → (offset + length buf ≤ length (spliced contents buf offset))
      × (length contents ≤ length (spliced contents buf offset))
length-spliced contents buf offset h =
    let tail = drop (offset + length buf) contents in
    let all = length-append (take offset contents) (buf ++ tail) in
    let later = length-append buf tail in
    let front = length-take offset contents h in
    elim (Bool-cases (leb (offset + length buf) (length contents))) [
      | inl within ↦
          let le : offset + length buf ≤ length contents = grind arith in
          let rest = length-drop (offset + length buf) contents le in (omega arith, omega arith)
      | inr past ↦ (
        omega arith,
        (let lt : length contents < offset + length buf = grind arith in omega arith),
      )
    ]

read_bytes-spliced :
    (contents buf : List ℕ) (offset : ℕ)
    → offset ≤ length contents
    → read_bytes (spliced contents buf offset) (length buf) offset ≡ ok buf
unfolding read_bytes
read_bytes-spliced contents buf offset h =
    let n = length buf in
    let tail = drop (offset + n) contents in
    let front : length (take offset contents) ≡ offset = length-take offset contents h in
    let end : min (length (spliced contents buf offset)) (offset + n) ≡ offset + n =
      le-min (length (spliced contents buf offset)) (offset + n)
        (length-spliced contents buf offset h).0 in
    let after : ltb (offset + n) offset ≡ false = grind arith in
    let len : offset + n - offset ≡ n = omega arith in
    let back : drop offset (spliced contents buf offset) ≡ buf ++ tail =
      ap (λ k. drop k (spliced contents buf offset)) (sym front)
      ∙ drop-append (take offset contents) (buf ++ tail) in
    rw (end, after, len, back, take-append buf tail) refl

-- What was written at an offset within the file is read there, and a writable file in the store can be
-- written so.
stored :
    (f : File) (s : FileSystem) (node : INode) (contents : List ℕ)
    → get_elem? s.inodes f.inode ≡ some node
    → data_of f (put_data f contents s) ≡ ok contents
unfolding data_of put_data
stored f s node contents g =
    rw
      (
        g,
        put_data,
        data_of,
        get_elem?-set_self s.inodes f.inode (record node { contents = contents })
            (get_elem?-lt-length s.inodes f.inode g),
      )
      refl

-- A write to a writable file in the store at an offset within its contents succeeds, and reading as
-- much at that offset then gives what was written.
pub read_at-write_all_at :
    (f : File) (s : FileSystem) (node : INode) (buf : List ℕ) (offset : ℕ)
    → f.can_write ≡ true
    → get_elem? s.inodes f.inode ≡ some node
    → offset ≤ length node.contents
    → (s' : FileSystem) × (write_all_at f buf offset s ≡ ok s')
      × (read_at f (length buf) offset s' ≡ ok buf)
unfolding write_all_at read_at data_of
read_at-write_all_at f s node buf offset w g h = (
  put_data f (spliced node.contents buf offset) s,
  rw (w, g, data_of, write_bytes-spliced node.contents buf offset h) refl,
  rw (stored f s node (spliced node.contents buf offset) g)
      (read_bytes-spliced node.contents buf offset h),
)

past_end : (n count offset : ℕ) → ltb (min n (offset + count)) offset ≡ true → n < offset
unfolding min
past_end n count offset h = ground arith

end_past : (n count offset : ℕ) → n < offset → ltb (min n (offset + count)) offset ≡ true
unfolding min
end_past n count offset h = grind arith

read_bytes-panic :
    (contents : List ℕ) (count offset : ℕ)
    → (read_bytes contents count offset ≡ panic) ↔ (length contents < offset)
unfolding read_bytes
read_bytes-panic contents count offset =
    elim (Bool-cases (ltb (min (length contents) (offset + count)) offset)) [
      | inl past ↦ rw past (λ _. past_end (length contents) count offset past, λ _. refl)
      | inr within ↦
          rw within
            (λ h. cc, λ h. absurd (let no = end_past (length contents) count offset h in cc))
    ]

-- Reading a file in the store panics exactly when the offset is past the end of its contents, whatever
-- is to be read.
pub read_at-eq-panic_iff :
    (f : File) (s : FileSystem) (node : INode) (count offset : ℕ)
    → get_elem? s.inodes f.inode ≡ some node
    → (read_at f count offset s ≡ panic) ↔ (length node.contents < offset)
unfolding read_at data_of
read_at-eq-panic_iff f s node count offset g =
    rw (g, data_of) (read_bytes-panic node.contents count offset)
