-- ===== src/Camera/Service/Runs/Calls.antt =====
-- The two sections of a call of host/camera/camera_service.py against the call as a whole.
