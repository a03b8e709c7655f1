-- ===== src/Pci/Tests.antt =====
-- A configuration space with one device.
use rtbench.Common.{◌≡◌, refl, ◌==◌, if◌then◌else◌, some, [], ◌∷◌}
use rtbench.Pci.{
  Space, config_address, pci_read_config_reg, pci_write_config_reg, pci_get_header, read_header,
  for_first, try_function,
}
use rtbench.Pci.Search.{Looked, pci_get_header-Looked}

-- The device 3 of bus 0 has the identifiers 0x8086 and 0x100E; reads of any other are all ones.
abbrev one_device : Space
one_device a offset bytes =
    if a == 0x80001800
    then (if offset == 0 then 0x8086 else if offset == 2 then 0x100E else 0)
    else 0xFFFFFFFF

get_header_runs : pci_get_header one_device 0x8086 0x100E ≡ some (read_header one_device 0 3 0)
unfolding pci_get_header for_first try_function pci_read_config_reg config_address
get_header_runs = refl

write_runs :
    pci_write_config_reg 0 3 0 0x3D 0x1FF 1 ≡ (0xCF8, 0x8000183C, 4) ∷ (0xCFD, 0xFF, 1) ∷ []
unfolding pci_write_config_reg config_address
write_runs = refl

pci_get_header-Looked_example :
    Looked one_device 0x8086 0x100E (pci_get_header one_device 0x8086 0x100E)
pci_get_header-Looked_example = pci_get_header-Looked one_device 0x8086 0x100E
