-- ===== src/Wf/Buffer.antt =====
-- src/memory.c: the accesses of whole buffers move bytes, and keep the machine well-formed.
use tinyvm.Base.{
  ℕ, zero, suc, ◌+◌, ◌==◌, if-elim, List, [], ◌∷◌, set_at, sub64, length, Gives, Keeps, Gives-pure,
  Gives-crash, Keeps-modify, Gives-if, Gives-bind,
}
use tinyvm.Memory.{load_list, store_list, in_data, mem_read_buf, mem_write_buf}
use tinyvm.Wf.Defs.{IsMachine, IsU8, AllU8}
use tinyvm.Wf.Memory.{set_region-IsMachine, mem_find_region-Gives, data_or_crash-Gives, IsData}

pub store_list-fit :
    (f : ℕ → ℕ) (off : ℕ) (bs : List ℕ) → IsData f → AllU8 bs → IsData (store_list f off bs)
unfolding store_list
store_list-fit f off [] h k = h
store_list-fit f off (b ∷ bs) h k =
    store_list-fit (set_at f off b) (off + 1) bs
      (λ i. if-elim IsU8 (i == off) b (f i) (λ _. k.0) (λ _. h i)) k.1

pub load_list-fit : (f : ℕ → ℕ) (off len : ℕ) → IsData f → AllU8 (load_list f off len)
unfolding load_list
load_list-fit f off zero h = tt
load_list-fit f off (suc len) h = (h off, load_list-fit f (off + 1) len h)

pub mem_read_buf-Gives : (addr len : ℕ) → Gives IsMachine AllU8 (mem_read_buf addr len)
unfolding mem_read_buf
mem_read_buf-Gives addr len = Gives-bind _ _ (mem_find_region-Gives addr len) λ found k.
    Gives-bind _ _ (data_or_crash-Gives found.1.bytes k) λ f b.
      Gives-if (in_data found.1 (sub64 addr found.1.base) len) _ _
        (λ _. Gives-pure _ (load_list-fit f _ len b)) (λ _. Gives-crash)

pub mem_write_buf-Keeps :
    (addr : ℕ) (src : List ℕ) → AllU8 src → Keeps IsMachine (mem_write_buf addr src)
unfolding mem_write_buf
mem_write_buf-Keeps addr src l = Gives-bind _ _ (mem_find_region-Gives addr (length src)) λ found k.
    Gives-bind _ _ (data_or_crash-Gives found.1.bytes k) λ f b.
      Gives-if (in_data found.1 (sub64 addr found.1.base) (length src)) _ _
        (λ _.
          Keeps-modify _ (λ m h. set_region-IsMachine found.0 _ m (store_list-fit f _ src b l) h))
        (λ _. Gives-crash)
