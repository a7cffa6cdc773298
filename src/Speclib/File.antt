-- ===== src/Speclib/File.antt =====
-- tools/speclib.c: `load_binary_file`, with the files that are open and the buffers that are allocated.
use sbndaq_wr.Base.{
  ℕ, ◌+◌, ◌-◌, ◌%◌, ◌^◌, ◌≤◌, ◌≡◌, refl, List, Option, none, some, Bool, not, arith, length,
  Program, done, pure, ◌>>◌, ltb, ◌==◌, if◌then◌else◌, ==_iff,
}
use sbndaq_wr.Base.Triples.{Ensures, Triple, Triple-bind, Triple-pure, Triple-if}

-- What the C library does with the file: whether it opens, whether it is regular and its size, if `fstat` succeeds, whether
-- there is memory, and the bytes that `fread` stores.
pub record Disk : Type 0 where
  pub opens : Bool
  pub stat : Option (Bool × ℕ)
  pub allocates : Bool
  pub contents : List ℕ

pub record Held : Type 0 where
  pub files : ℕ
  pub buffers : ℕ

abbrev pub H : Type 0 → Type 0
H A = Program Held A

unfoldable pub opened : H (Unit {0})
opened s = done tt (record s { files = s.files + 1 })

unfoldable pub fclose : H (Unit {0})
fclose s = done tt (record s { files = s.files - 1 })

unfoldable pub allocated : H (Unit {0})
allocated s = done tt (record s { buffers = s.buffers + 1 })

unfoldable pub free : H (Unit {0})
free s = done tt (record s { buffers = s.buffers - 1 })

-- The count of `fread` as an `int`: it is negative from 2 ^ 31 on.
unfoldable pub read_file : List ℕ → ℕ → H (Option (List ℕ × ℕ))
unfolding allocated fclose free
read_file contents size =
    let i = length contents % 2 ^ 32 in
    allocated
    >> fclose
    >> (if ltb i (2 ^ 31)
        then (if i == size then pure (some (contents, size)) else (free >> pure none))
        else (free >> pure none))

-- `load_binary_file`: the bytes and the size.
unfoldable pub load_binary_file : Disk → H (Option (List ℕ × ℕ))
unfolding opened read_file fclose
load_binary_file d =
    if not d.opens
    then pure none
    else opened >> elim d.stat [
      | none ↦ fclose >> pure none
      | some (regular, size) ↦
          if not regular
          then fclose >> pure none
          else if not d.allocates
          then fclose >> pure none
          else read_file d.contents size
    ]

-- What `fstat` promises of `fread`: no more bytes than the size that was asked for.
abbrev pub IsWithin : Disk → Type 0
IsWithin d = (regular : Bool) (size : ℕ) → d.stat ≡ some (regular, size) → length d.contents ≤ size

abbrev pub Holding : ℕ → ℕ → Held → Type 0
Holding files buffers s = (s.files ≡ files) × (s.buffers ≡ buffers)

-- A file's bytes in one buffer more, or nothing.
abbrev pub IsLoaded : ℕ → ℕ → Option (List ℕ × ℕ) → Held → Type 0
IsLoaded files buffers none s = Holding files buffers s
IsLoaded files buffers (some (bytes, size)) s =
    (length bytes ≡ size) × Holding files (buffers + 1) s

module _ (files buffers : ℕ) where
  fclose-Triple : (b : ℕ) → Triple ⊥ (Holding (files + 1) b) fclose (λ _. Holding files b)
  unfolding fclose
  fclose-Triple b = record { at = λ s h. Ensures.returns (omega (arith, h.0), h.1) }

  free-Triple : Triple ⊥ (Holding files (buffers + 1)) free (λ _. Holding files buffers)
  unfolding free
  free-Triple = record { at = λ s h. Ensures.returns (h.0, omega (arith, h.1)) }

  opened-Triple : Triple ⊥ (Holding files buffers) opened (λ _. Holding (files + 1) buffers)
  unfolding opened
  opened-Triple = record { at = λ s h. Ensures.returns (omega (arith, h.0), h.1) }

  allocated-Triple :
      Triple ⊥ (Holding (files + 1) buffers) allocated (λ _. Holding (files + 1) (buffers + 1))
  unfolding allocated
  allocated-Triple = record { at = λ s h. Ensures.returns (h.0, omega (arith, h.1)) }

  closed : Triple ⊥ (Holding (files + 1) buffers) (fclose >> pure none) (IsLoaded files buffers)
  closed = Triple-bind (fclose-Triple buffers) λ _. Triple-pure none (λ s h. h)

  freed : Triple ⊥ (Holding files (buffers + 1)) (free >> pure none) (IsLoaded files buffers)
  freed = Triple-bind free-Triple λ _. Triple-pure none (λ s h. h)

  read_file-Triple :
      (contents : List ℕ) (size : ℕ)
      → length contents ≤ size
      → Triple ⊥ (Holding (files + 1) buffers) (read_file contents size) (IsLoaded files buffers)
  unfolding read_file
  read_file-Triple contents size within =
      let i = length contents % 2 ^ 32 in
      Triple-bind allocated-Triple λ _. Triple-bind (fclose-Triple (buffers + 1)) λ _.
        Triple-if (ltb i (2 ^ 31))
          (λ _.
            Triple-if (i == size)
              (λ whole.
                let e : i ≡ size = (==_iff i size).0 whole in
                Triple-pure (some (contents, size)) (λ s h. (omega (arith, e, within), h)))
              (λ _. freed))
          (λ _. freed)

  -- Whatever fails, the loading of a file ends with the files open that were open before. If it gives bytes, these are as
  -- many as the size that it gives, and one buffer more is allocated. If it gives nothing, no buffer is left behind.
  pub load_binary_file-Triple :
      (d : Disk)
      → IsWithin d
      → Triple ⊥ (Holding files buffers) (load_binary_file d) (IsLoaded files buffers)
  unfolding load_binary_file
  load_binary_file-Triple d within =
      Triple-if (not d.opens) (λ _. Triple-pure none (λ s h. h))
        (λ _. Triple-bind opened-Triple λ _. rest d.stat within)
    where
      rest :
          (st : Option (Bool × ℕ))
          → ((regular : Bool) (size : ℕ) → st ≡ some (regular, size) → length d.contents ≤ size)
          → Triple ⊥
              (Holding (files + 1) buffers)
              (elim st [
                | none ↦ fclose >> pure none
                | some (regular, size) ↦
                    if not regular
                    then fclose >> pure none
                    else if not d.allocates
                    then fclose >> pure none
                    else read_file d.contents size
              ])
              (IsLoaded files buffers)
      rest none within = closed
      rest (some (regular, size)) within =
          Triple-if (not regular) (λ _. closed)
            λ _.
              Triple-if (not d.allocates) (λ _. closed)
                (λ _. read_file-Triple d.contents size (within regular size refl))
