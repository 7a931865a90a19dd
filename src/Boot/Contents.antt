-- ===== src/Boot/Contents.antt =====
-- src/elf.c: the bytes of the RAM after a whole file is loaded, segment by segment.
use Prim.Native.String.{String}
use tinyvm.Base.{
  ℕ, zero, suc, ◌+◌, ◌-◌, ◌≤◌, ◌<◌, ◌≡◌, ◌⊎◌, refl, ap, sym, ◌∙◌, true, Bool-cases, inl, inr, List,
  [], ◌∷◌, ◌++◌, length, some, add64, sub64, ok, subst, arith,
}
use tinyvm.Machine.{Machine, MemRegion}
use tinyvm.Memory.{load_list, store_list}
use tinyvm.Memory.Copy.{
  with_ram, length-load_list, store_list-before, store_list-after, load_list-store_list,
  load_list-agree,
}
use tinyvm.Boot.Elf.{FileData, HostFiles, ElfHeader, zeros, elf_load}
use tinyvm.Boot.Segments.{length-zeros, paddr_of, offset_of, file_size_of, mem_size_of, contents}
use tinyvm.Boot.Loading.{
  IsElf, IsHeader, header_of, header_at, is_load, loaded, shift_of, elf_load-loaded,
}

length-append : (xs ys : List ℕ) → length (xs ++ ys) ≡ length xs + length ys
length-append [] ys = omega arith
length-append (x ∷ xs) ys = omega (arith, length-append xs ys)

length-contents :
    (image : FileData) (phdr : ℕ)
    → file_size_of image phdr ≤ mem_size_of image phdr
    → length (contents image phdr) ≡ mem_size_of image phdr
length-contents image phdr h =
    let bytes = load_list image.bytes (offset_of image phdr) (file_size_of image phdr) in
    let tail = zeros (mem_size_of image phdr - file_size_of image phdr) in
    omega (
      arith,
      h,
      length-append bytes tail,
      length-load_list image.bytes (offset_of image phdr) (file_size_of image phdr),
      length-zeros (mem_size_of image phdr - file_size_of image phdr),
    )

module _ (image : FileData) (ehdr : ElfHeader) (phys_base base : ℕ) where
  -- Where segment i stands in the RAM, and how long it is.
  abbrev pub start_of : ℕ → ℕ
  start_of i = add64 (paddr_of image (header_at ehdr i)) phys_base - base

  abbrev pub length_of : ℕ → ℕ
  length_of i = mem_size_of image (header_at ehdr i)

  abbrev pub Outside : ℕ → ℕ → Type 0
  Outside o i = (o < start_of i) ⊎ (start_of i + length_of i ≤ o)

  abbrev pub Disjoint : ℕ → ℕ → Type 0
  Disjoint i k = (start_of i + length_of i ≤ start_of k) ⊎ (start_of k + length_of k ≤ start_of i)

  -- The LOAD segments among these headers.
  abbrev Every : (ℕ → Type 0) → ℕ → ℕ → Type 0
  Every P i n = (j : ℕ) → i ≤ j → j < n → is_load image ehdr j ≡ true → P j

  abbrev Grows : ℕ → Type 0
  Grows i = file_size_of image (header_at ehdr i) ≤ length_of i

  stored-Outside :
      (f : ℕ → ℕ) (i o : ℕ)
      → Grows i
      → Outside o i
      → store_list f (start_of i) (contents image (header_at ehdr i)) o ≡ f o
  stored-Outside f i o g (inl h) =
      store_list-before f (start_of i) (contents image (header_at ehdr i)) o h
  stored-Outside f i o g (inr h) =
      let len = length-contents image (header_at ehdr i) g in
      store_list-after f (start_of i) (contents image (header_at ehdr i)) o (omega (arith, len, h))

  loaded-Outside :
      (o i left : ℕ) (f : ℕ → ℕ)
      → Every Grows i (i + left)
      → Every (Outside o) i (i + left)
      → loaded image ehdr phys_base base i left f o ≡ f o
  unfolding loaded
  loaded-Outside o i zero f g h = refl
  loaded-Outside o i (suc left) f g h =
      let rest = λ (f' : ℕ → ℕ).
        loaded-Outside o (i + 1) left f' (λ j l k e. g j (omega arith) (omega arith) e)
          (λ j l k e. h j (omega arith) (omega arith) e) in
      elim (Bool-cases (is_load image ehdr i)) [
        | inl e ↦ rw e (
            rest _
            ∙ stored-Outside f i o (g i (omega arith) (omega arith) e)
                (h i (omega arith) (omega arith) e))
        | inr e ↦ rw e (rest f)
      ]

  beside : (o i j : ℕ) → start_of i ≤ o → o < start_of i + length_of i → Disjoint j i → Outside o j
  beside o i j l k (inl d) = inr (omega arith)
  beside o i j l k (inr d) = inl (omega arith)

  first-contents :
      (i left : ℕ) (f : ℕ → ℕ)
      → is_load image ehdr i ≡ true
      → Every Grows i (i + suc left)
      → ((j : ℕ) → i < j → j < i + suc left → is_load image ehdr j ≡ true → Disjoint j i)
      → load_list (loaded image ehdr phys_base base i (suc left) f) (start_of i) (length_of i)
        ≡ contents image (header_at ehdr i)
  unfolding loaded
  first-contents i left f e g h =
      let bytes = contents image (header_at ehdr i) in
      let stored = store_list f (start_of i) bytes in
      let len = length-contents image (header_at ehdr i) (g i (omega arith) (omega arith) e) in
      let kept = λ (o : ℕ) (l : start_of i ≤ o) (k : o < start_of i + length_of i).
        loaded-Outside o (i + 1) left stored (λ j l' k' e'. g j (omega arith) (omega arith) e')
          (λ j l' k' e'. beside o i j l k (h j (omega arith) (omega arith) e')) in
      rw e (
        load_list-agree (loaded image ehdr phys_base base (i + 1) left stored) stored (start_of i)
          (length_of i) kept
        ∙ ap (λ n. load_list stored (start_of i) n) (sym len)
        ∙ load_list-store_list f (start_of i) bytes)

  -- The bytes of a LOAD segment are there at the end, if no later one overlaps it.
  loaded-contents :
      (k i left : ℕ) (f : ℕ → ℕ)
      → i ≤ k
      → k < i + left
      → is_load image ehdr k ≡ true
      → Every Grows i (i + left)
      → ((j : ℕ) → k < j → j < i + left → is_load image ehdr j ≡ true → Disjoint j k)
      → load_list (loaded image ehdr phys_base base i left f) (start_of k) (length_of k)
        ≡ contents image (header_at ehdr k)
  unfolding loaded
  loaded-contents k i zero f l m e g h = absurd (omega arith)
  loaded-contents k i (suc left) f l m e g h = elim (lt-or-eq i k l) [
    | inl later ↦
        loaded-contents k (i + 1) left _ (omega arith) (omega arith) e
          (λ j l' k' e'. g j (omega arith) (omega arith) e') (λ j l' k' e'. h j l' (omega arith) e')
    | inr here ↦
        subst
          (λ x.
            load_list (loaded image ehdr phys_base base x (suc left) f) (start_of k) (length_of k)
            ≡ contents image (header_at ehdr k))
          (sym here)
          (first-contents k left f e (λ j l' k' e'. g j (omega arith) (omega arith) e')
            (λ j l' k' e'. h j l' (omega arith) e'))
  ]
    where
      lt-or-eq : (i k : ℕ) → i ≤ k → (i < k) ⊎ (i ≡ k)
      lt-or-eq i k l = ground arith

-- Each LOAD segment that no later one overlaps has its bytes in the RAM, those of the file and then
-- zeros, and outside all LOAD segments the RAM is as it was.
pub record IsLoaded (image : FileData) (phys_base base : ℕ) (before after : ℕ → ℕ) : Type 0 where
  pub segments :
      (k : ℕ)
      → k < (header_of image).ph_num
      → is_load image (header_of image) k ≡ true
      → ((j : ℕ)
          → k < j
          → j < (header_of image).ph_num
          → is_load image (header_of image) j ≡ true
          → Disjoint image (header_of image) phys_base base j k)
      → load_list after
          (start_of image (header_of image) phys_base base k)
          (length_of image (header_of image) phys_base base k)
        ≡ contents image (header_at (header_of image) k)
  pub elsewhere :
      (o : ℕ)
      → ((j : ℕ)
          → j < (header_of image).ph_num
          → is_load image (header_of image) j ≡ true
          → Outside image (header_of image) phys_base base o j)
      → after o ≡ before o

-- A 64-bit little-endian RISC-V file whose program headers are inside it and whose LOAD segments
-- fit the RAM, with no more bytes in the file than in memory, is loaded: afterwards each of these
-- segments that no later one overlaps has its bytes in the RAM, those of the file and then zeros;
-- outside them the RAM is as it was, and so is the rest of the machine. The result is the entry
-- less the shift of the first of them, moved by the base.
pub elf_load-IsLoaded :
    (image : FileData) (base size : ℕ) (rs : List MemRegion) (m : Machine) (files : HostFiles)
    (path : String) (phys_base : ℕ) (f : ℕ → ℕ)
    → files path ≡ some image
    → IsElf image
    → ((i : ℕ)
        → i < (header_of image).ph_num
        → IsHeader image (header_of image) phys_base base size i)
    → let ehdr = header_of image in
      let g = loaded image ehdr phys_base base 0 ehdr.ph_num f in
      (elf_load files path phys_base (with_ram base size rs m f)
        ≡ ok (
          add64 (sub64 ehdr.entry (shift_of image ehdr 0 ehdr.ph_num)) phys_base,
          with_ram base size rs m g,
        ))
      × IsLoaded image phys_base base f g
elf_load-IsLoaded image base size rs m files path phys_base f opens valid all =
    let ehdr = header_of image in
    let grows = λ (j : ℕ) (k : j < ehdr.ph_num) (e : is_load image ehdr j ≡ true).
      ((all j k).segment_fits e).grows in
    (
      elf_load-loaded image base size rs m files path phys_base f opens valid all,
      record {
        segments = λ k l e h.
            loaded-contents image ehdr phys_base base k 0 ehdr.ph_num f (omega arith)
              (omega (arith, l)) e (λ j l' k' e'. grows j (omega (arith, k')) e')
              (λ j l' k' e'. h j l' (omega (arith, k')) e');
        elsewhere = λ o h.
            loaded-Outside image ehdr phys_base base o 0 ehdr.ph_num f
              (λ j l' k' e'. grows j (omega (arith, k')) e')
              (λ j l' k' e'. h j (omega (arith, k')) e');
      },
    )
