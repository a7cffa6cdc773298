-- ===== src/Carrier/Pci/Release.antt =====
-- What the probing of the card holds when it ends.
