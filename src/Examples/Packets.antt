-- ===== src/Examples/Packets.antt =====
-- Runs of the packets of YServerCore/PacketDataStructure.h and of the texts of
-- YServerCore/Database.cpp.
