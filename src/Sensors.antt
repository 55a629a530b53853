-- ===== src/Sensors.antt =====
-- The sensors and the buzzer of the robot, Working/Alex-a, and the arithmetic of `float`, which is a
-- parameter.
pub mod Floating
pub mod Ultrasound
pub mod Colour
pub mod Buzzer
pub mod Tests
