-- ===== src/Tests/Boot.antt =====
-- The theorems on the start of the machine at concrete inputs.
use tinyvm.Base.{true, pure, modify, ◌>>=◌}
use tinyvm.Memory.{load_list, mem_write_buf, mem_find_region, found_or_exit, data_or_crash}
use tinyvm.Boot.Elf.{
  elf_load, elf_load_data, elf_is_valid, elf_header, virt_shift_from, load_segments_from,
  program_header, host_read, host_pointer, copy_in, zeros,
}
use tinyvm.Boot.Modes.{kernel_boot}
use tinyvm.Boot.Start.{IsStarted, started, kernel_boot-IsStarted}
use tinyvm.Base.{◌≡◌, refl, none, some, [], ◌∷◌, ok, exits, Post, arith}
use tinyvm.Machine.{Machine, virtio_mmio}
use tinyvm.Memory.{load_bytes, store_list, find_region, add_region, mem_add_region, mem_add_device}
use tinyvm.Memory.Copy.{with_ram}
use tinyvm.Device.Transport.{virtio_init, virtio_blk_init}
use tinyvm.Execute.Step.{cpu_add_irq_source}
use tinyvm.Boot.Elf.{load_segment}
use tinyvm.Boot.Main.{static_machine, init, uart_init, plic_init, clint_init, main}
use tinyvm.Boot.Refusal.{main-refuses}
use tinyvm.Boot.Segments.{FitsRam, contents}
use tinyvm.Boot.Loading.{IsElf, IsHeader, header_of, loaded, shift_of}
use tinyvm.Boot.Contents.{IsLoaded, elf_load-IsLoaded}
use tinyvm.Base.{ℕ, zero, suc, ◌<◌}
use tinyvm.Boot.Layout.{init-find_region}
use tinyvm.Wf.Defs.{IsMachine}
use tinyvm.Wf.Boot.{IsEnvironment, main-IsMachine}
use tinyvm.Tests.Fixtures.{test_machine, test_bytes, test_disk, zero_host-IsHost}
use tinyvm.Tests.Files.{test_file, test_file-IsFile, elf_image, blank_image, host_with}

elf_host-IsEnvironment : IsEnvironment (host_with elf_image)
elf_host-IsEnvironment = record {
  is_file = test_file-IsFile;
  are_files = λ path i. omega arith;
  are_opened = λ path. omega arith;
  is_host = zero_host-IsHost;
}

main-IsMachine_example :
    Post
      (λ r. IsMachine r.1)
      (main
        (host_with elf_image)
        2
        1
        10
        ("elf" ∷ "kernel.elf" ∷ [])
        (static_machine (some 0x61 ∷ [])))
main-IsMachine_example =
    main-IsMachine (host_with elf_image) elf_host-IsEnvironment 2 1 10 ("elf" ∷ "kernel.elf" ∷ [])
      (some 0x61 ∷ [])

main-refuses_example :
    main (host_with blank_image) 2 1 10 ("kernel" ∷ "blank.elf" ∷ []) (static_machine []) ≡ exits 1
unfolding load_bytes
main-refuses_example =
    main-refuses (host_with blank_image) 2 1 10 "kernel" "blank.elf" [] (static_machine [])
      (omega arith, refl)

elf_image-FitsRam : FitsRam elf_image 64 0 0x80000000 0x1000
unfolding load_bytes
elf_image-FitsRam = record {
  header_in_file = omega arith;
  bytes_in_file = omega arith;
  grows = omega arith;
  in_ram = record { above = omega arith; below = omega arith; no_wrap = omega arith };
}

elf_image-IsElf : IsElf elf_image
unfolding load_bytes
elf_image-IsElf = record {
  header_in_file = omega arith;
  magic_is = refl;
  class_is = refl;
  encoding_is = refl;
  machine_is = refl;
}

elf_image-IsHeader :
    (i : ℕ) → i < 1 → IsHeader elf_image (header_of elf_image) 0 0x80000000 0x1000 i
unfolding load_bytes
elf_image-IsHeader zero h = record {
  no_overflow = omega arith;
  in_file = omega arith;
  segment_fits = λ e. elf_image-FitsRam;
}
elf_image-IsHeader (suc i) h = absurd (omega arith)

elf_load-IsLoaded_example :
    (elf_load
        (λ path. some elf_image)
        "kernel.elf"
        0
        (with_ram 0x80000000 0x1000 [] test_machine test_bytes)
      ≡ ok (
        0x80000000,
        with_ram 0x80000000 0x1000 [] test_machine
            (loaded elf_image (header_of elf_image) 0 0x80000000 0 1 test_bytes),
      ))
    × IsLoaded elf_image 0 0x80000000 test_bytes
        (loaded elf_image (header_of elf_image) 0 0x80000000 0 1 test_bytes)
unfolding load_bytes shift_of
elf_load-IsLoaded_example =
    elf_load-IsLoaded elf_image 0x80000000 0x1000 [] test_machine (λ path. some elf_image)
      "kernel.elf" 0 test_bytes refl elf_image-IsElf elf_image-IsHeader

init-find_region_example :
    find_region 0 (init test_file (some test_disk) (static_machine [])).regions 0x10001050 4
    ≡ some (3, record { base = 0x10001000; size = 0x1000; bytes = none; device = virtio_mmio 0 })
unfolding init uart_init plic_init clint_init cpu_add_irq_source mem_add_region mem_add_device
    add_region virtio_init virtio_blk_init
init-find_region_example =
    init-find_region test_file (some test_disk) [] 3
      (record { base = 0x10001000; size = 0x1000; bytes = none; device = virtio_mmio 0 }) 0x10001050
      4 refl (omega arith) (record { above = omega arith; below = omega arith })

-- The RAM with the segment of the file.
abbrev loaded_machine : Machine
loaded_machine =
    with_ram 0x80000000 0x1000 [] test_machine (store_list test_bytes 0 (contents elf_image 64))

elf_load-elf_image :
    elf_load (λ path. some elf_image) "kernel.elf" 0 test_machine ≡ ok (0x80000000, loaded_machine)
unfolding elf_load elf_load_data elf_is_valid elf_header virt_shift_from load_segments_from
    load_segment program_header host_read host_pointer copy_in zeros load_bytes load_list store_list
    mem_write_buf mem_find_region find_region found_or_exit data_or_crash pure modify ◌>>=◌
elf_load-elf_image = refl

kernel_boot-IsStarted_example :
    (kernel_boot (λ path. some elf_image) "kernel.elf" test_machine
      ≡ ok (true, started 0 0x80000000 loaded_machine))
    × IsStarted 0 0x80000000 loaded_machine (started 0 0x80000000 loaded_machine)
kernel_boot-IsStarted_example =
    kernel_boot-IsStarted (λ path. some elf_image) "kernel.elf" 0x80000000 test_machine
      loaded_machine elf_load-elf_image refl
