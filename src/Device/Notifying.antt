-- ===== src/Device/Notifying.antt =====
-- src/virtio.c, src/virtio_blk.c: blk_notify when the guest has published one more request.
use tinyvm.Base.{
  ℕ, zero, suc, ◌+◌, ◌*◌, ◌%◌, ◌^◌, ◌<◌, ◌≡◌, ◌≢◌, ◌∙◌, refl, ap, sym, subst, true, false, not,
  ◌==◌, if◌then◌else◌, List, u16, add64, ok, Exec, pure, gets, modify, ◌>>=◌, ◌>>◌, arith,
}
use native.Mathlib.Nat.{mod-lt}
use tinyvm.Machine.{Machine, MemRegion, VirtqRing}
use tinyvm.Memory.{DeviceIo, mem_read16}
use tinyvm.Memory.Copy.{with_ram, InRam}
use tinyvm.Device.Virtio.{
  queue_of, on_queue, remainder, vq_ring_has_next, vq_ring_next, ring_idx_off, ring_entries_off,
  avail_entry_size, virtio_notify_guest,
}
use tinyvm.Device.Block.{HostFile, blk_serve, blk_notify, blk_handle_request}
use tinyvm.Device.Reading.{Reads}
use tinyvm.Device.Writing.{Writes}
use tinyvm.Device.Request.{Request, word, request_of, disk_after, served}
use tinyvm.Device.Serving.{read_word, part, no_wrap_at}
use tinyvm.Device.Requests.{IsRequest, blk_handle_request-served}

-- The index that the guest has published, and the entry at the cursor.
abbrev pub published : ℕ → VirtqRing → (ℕ → ℕ) → ℕ
published base ring f = u16 (word base f (ring.base + ring_idx_off) 2)

abbrev pub entry_place : VirtqRing → ℕ
entry_place ring = ring.base + ring_entries_off + ring.cursor % ring.size * avail_entry_size

-- The machine after the cursor has moved on.
abbrev pub moved_on : ℕ → Machine → Machine
moved_on n m =
    on_queue n
      (λ q. let a = q.avail in record q { avail = record a { cursor = u16 (a.cursor + 1) } }) m

queue_of-moved_on :
    (n : ℕ) (m : Machine)
    → queue_of n (moved_on n m) ≡ record (queue_of n m) {
      avail = record (queue_of n m).avail { cursor = u16 ((queue_of n m).avail.cursor + 1) };
    }
queue_of-moved_on n m = let self : (n == n) ≡ true = ground arith in rw (self, queue_of) refl

module _ (io : DeviceIo) (base size : ℕ) (rs : List MemRegion) (n : ℕ) where
  vq_ring_has_next-published :
      (m : Machine) (f : ℕ → ℕ) (ring : VirtqRing)
      → InRam base size ring.base (4 + 2 * ring.size)
      → vq_ring_has_next io ring (with_ram base size rs m f)
        ≡ ok (not (ring.cursor == published base ring f), with_ram base size rs m f)
  unfolding vq_ring_has_next mem_read16 pure ◌>>=◌
  vq_ring_has_next-published m f ring h =
      let all : ℕ = 4 + 2 * ring.size in
      rw
        (
          no_wrap_at io base size rs m ring.base all 2 (omega arith) h,
          read_word io base size rs m f (ring.base + 2) 2
              (part io base size rs m ring.base all 2 2 (omega arith) h),
        )
        refl

  vq_ring_next-entry :
      (m : Machine) (f : ℕ → ℕ)
      → (queue_of n m).avail.size ≢ 0
      → InRam base size (queue_of n m).avail.base (4 + 2 * (queue_of n m).avail.size)
      → vq_ring_next io n (with_ram base size rs m f)
        ≡ ok (
          u16 (word base f (entry_place (queue_of n m).avail) 2),
          with_ram base size rs (moved_on n m) f,
        )
  unfolding vq_ring_next remainder mem_read16 gets modify pure ◌>>=◌
  vq_ring_next-entry m f some_entries h =
      let ring = (queue_of n m).avail in
      let all : ℕ = 4 + 2 * ring.size in
      let slot = ring.cursor % ring.size in
      let inside : slot < ring.size = mod-lt ring.cursor (omega arith) in
      let divides : (ring.size == 0) ≡ false = ground arith in
      let place = entry_place ring in
      let entry : InRam base size place 2 =
        let k = part io base size rs m ring.base all (4 + slot * 2) 2 (omega arith) h in
        subst (λ a. InRam base size a 2) (omega arith) k in
      let to_entries = no_wrap_at io base size rs m ring.base all 4 (omega arith) h in
      let to_place : add64 (ring.base + 4) (slot * 2) ≡ place =
        omega (arith, entry.below, entry.no_wrap) in
      rw (divides, to_entries, to_place, read_word io base size rs (moved_on n m) f place 2 entry)
        refl

  -- With nothing published the loop ends.
  blk_serve-idle :
      (file : HostFile) (rounds : ℕ) (m : Machine) (g : ℕ → ℕ)
      → InRam base size (queue_of n m).avail.base (4 + 2 * (queue_of n m).avail.size)
      → published base (queue_of n m).avail g ≡ (queue_of n m).avail.cursor
      → blk_serve file io rounds n (with_ram base size rs m g) ≡ ok (tt, with_ram base size rs m g)
  unfolding blk_serve gets pure ◌>>=◌
  blk_serve-idle file rounds m g h e =
      let none_left : ((queue_of n m).avail.cursor == published base (queue_of n m).avail g)
          ≡ true =
        ground arith in
      by_fuel rounds none_left
    where
      by_fuel :
          (rounds : ℕ)
          → ((queue_of n m).avail.cursor == published base (queue_of n m).avail g) ≡ true
          → blk_serve file io rounds n (with_ram base size rs m g)
            ≡ ok (tt, with_ram base size rs m g)
      by_fuel zero k = rw (vq_ring_has_next-published m g (queue_of n m).avail h, k) refl
      by_fuel (suc r) k = rw (vq_ring_has_next-published m g (queue_of n m).avail h, k) refl

  module _ (file : HostFile) (m : Machine) (f : ℕ → ℕ) where
    -- The head of the chain that is next, the request, and the memory and machine after it.
    abbrev pub next_head : ℕ
    next_head = u16 (word base f (entry_place (queue_of n m).avail) 2)

    abbrev pub next_request : Request
    next_request = request_of base f (queue_of n m).desc_base next_head

    abbrev pub memory_left : ℕ → ℕ
    memory_left = served base (queue_of n m).used next_head next_request m.disk f

    abbrev pub machine_left : Machine
    machine_left = record (moved_on n m) { disk = disk_after base next_request m.disk f }

    handle-next :
        Reads file m.disk
        → Writes file
        → m.disk.size < 2 ^ 63
        → (queue_of n m).used.size ≢ 0
        → InRam base size (queue_of n m).used.base (4 + 8 * (queue_of n m).used.size)
        → IsRequest base size (queue_of n m).desc_base next_head f m.disk
        → blk_handle_request file io n next_head (with_ram base size rs (moved_on n m) f)
          ≡ ok (tt, with_ram base size rs machine_left memory_left)
    handle-next reads writes sized entries ring h =
        let used_is : (queue_of n (moved_on n m)).used ≡ (queue_of n m).used =
          ap (λ q. q.used) (queue_of-moved_on n m) in
        let table_is : (queue_of n (moved_on n m)).desc_base ≡ (queue_of n m).desc_base =
          ap (λ q. q.desc_base) (queue_of-moved_on n m) in
        let step =
          blk_handle_request-served file base size rs (moved_on n m) io n next_head f reads writes
            sized (subst (λ u. u.size ≢ 0) (sym used_is) entries)
            (subst (λ u. InRam base size u.base (4 + 8 * u.size)) (sym used_is) ring)
            (subst (λ d. IsRequest base size d next_head f m.disk) (sym table_is) h) in
        step ∙ λ j. ok (
          tt,
          with_ram base size rs
              (record (moved_on n m) {
                disk = disk_after base (request_of base f (table_is j) next_head) m.disk f;
              })
              (served base (used_is j) next_head (request_of base f (table_is j) next_head) m.disk
                f),
        )

    -- The two rings are in the RAM and have entries.
    pub record AreRings : Type 0 where
      pub avail_entries : (queue_of n m).avail.size ≢ 0
      pub avail_ring : InRam base size (queue_of n m).avail.base (4 + 2 * (queue_of n m).avail.size)
      pub used_entries : (queue_of n m).used.size ≢ 0
      pub used_ring : InRam base size (queue_of n m).used.base (4 + 8 * (queue_of n m).used.size)

    blk_serve-next :
        (rounds : ℕ)
        → Reads file m.disk
        → Writes file
        → m.disk.size < 2 ^ 63
        → AreRings
        → (queue_of n m).avail.cursor < 2 ^ 16
        → published base (queue_of n m).avail f ≡ u16 ((queue_of n m).avail.cursor + 1)
        → IsRequest base size (queue_of n m).desc_base next_head f m.disk
        → published base (queue_of n m).avail memory_left ≡ u16 ((queue_of n m).avail.cursor + 1)
        → blk_serve file io (suc rounds) n (with_ram base size rs m f)
          ≡ ok (tt, with_ram base size rs machine_left memory_left)
    unfolding blk_serve gets ◌>>=◌
    blk_serve-next rounds reads writes sized rings fits one h kept =
        let ring = (queue_of n m).avail in
        let more : (ring.cursor == published base ring f) ≡ false = ground arith in
        let ring_is : (queue_of n machine_left).avail
            ≡ record ring { cursor = u16 (ring.cursor + 1) } =
          ap (λ q. q.avail) (queue_of-moved_on n m) in
        let idle =
          blk_serve-idle file rounds machine_left memory_left
            (subst (λ a. InRam base size a.base (4 + 2 * a.size)) (sym ring_is) rings.avail_ring)
            (subst (λ a. published base a memory_left ≡ a.cursor) (sym ring_is) kept) in
        rw
          (
            vq_ring_has_next-published m f ring rings.avail_ring,
            more,
            vq_ring_next-entry m f rings.avail_entries rings.avail_ring,
            handle-next reads writes sized rings.used_entries rings.used_ring h,
          )
          idle

    -- A notification of a ready queue whose rings are in the RAM, when the guest has published one request
    -- more than the cursor, serves that request as a whole, moves the cursor on, and then raises the
    -- interrupt of the slot; the chain and what it points at are in the RAM, the blocks are on the disk, and
    -- the transfer leaves the published index alone.
    pub blk_notify-serves :
        (rounds : ℕ)
        → Reads file m.disk
        → Writes file
        → m.disk.size < 2 ^ 63
        → (queue_of n m).ready ≡ true
        → AreRings
        → (queue_of n m).avail.cursor < 2 ^ 16
        → published base (queue_of n m).avail f ≡ u16 ((queue_of n m).avail.cursor + 1)
        → IsRequest base size (queue_of n m).desc_base next_head f m.disk
        → published base (queue_of n m).avail memory_left ≡ u16 ((queue_of n m).avail.cursor + 1)
        → blk_notify file io (suc rounds) n (with_ram base size rs m f)
          ≡ ok (tt, virtio_notify_guest n (with_ram base size rs machine_left memory_left))
    unfolding blk_notify gets modify ◌>>=◌
    blk_notify-serves rounds reads writes sized ready rings fits one h kept =
        let start : Exec Machine (Unit {0}) =
          blk_serve file io (suc rounds) n >> modify (virtio_notify_guest n) in
        let go : (if not (queue_of n m).ready then pure tt else start) (with_ram base size rs m f)
            ≡ start (with_ram base size rs m f) =
          λ j. (if not (ready j) then pure tt else start) (with_ram base size rs m f) in
        go ∙ rw (blk_serve-next rounds reads writes sized rings fits one h kept) refl
