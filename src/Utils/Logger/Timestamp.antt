-- ===== src/Utils/Logger/Timestamp.antt =====
-- When a timestamp fits its buffer (create_timestamp of src/utils/logger.cpp).
